-- ===== src/Audit/Queries.antt =====
-- The queries of abi/src/audit.rs over what a log returns: text search, filters combined
-- by logic, and statistics. Percentages, which are floating point, are left out.
use skylet.Prelude.{
  ℕ, suc, ◌+◌, Bool, true, false, not, ◌&&◌, ◌||◌, Option, none, some, List, [], ◌∷◌, ltb, ◌==◌,
  if◌then◌else◌,
}
use skylet.Prelude.Lists.{length, filter, any, all}
use skylet.Prelude.Texts.{Text, has_text}
use skylet.Prelude.Sets.{set_insert}
use skylet.Audit.{
  AuditSeverity, AuditEventType, AuditEvent, AuditLogFilter, InMemoryAuditLog, info, warning, error,
  critical, event_type_index, filter_matches, new_filter, with_limit, read, skip_offset, cut_limit,
}

pub record FullTextSearchQuery : Type 0 where
  pub search_term : Text
  pub case_sensitive : Bool
  pub search_message : Bool
  pub search_metadata : Bool

abbrev pub new_search : Text → FullTextSearchQuery
new_search search_term = record {
  search_term = search_term;
  case_sensitive = false;
  search_message = true;
  search_metadata = true;
}

abbrev pub set_case_sensitive : Bool → FullTextSearchQuery → FullTextSearchQuery
set_case_sensitive sensitive q = record q { case_sensitive = sensitive }

abbrev pub set_search_message : Bool → FullTextSearchQuery → FullTextSearchQuery
set_search_message enabled q = record q { search_message = enabled }

abbrev pub set_search_metadata : Bool → FullTextSearchQuery → FullTextSearchQuery
set_search_metadata enabled q = record q { search_metadata = enabled }

-- `str::to_lowercase`, whose tables are Unicode's, is a parameter.
module _ (to_lowercase : Text → Text) where
  abbrev pub cased : FullTextSearchQuery → Text → Text
  cased q s = if q.case_sensitive then s else to_lowercase s

  unfoldable pub search_matches : FullTextSearchQuery → AuditEvent → Bool
  search_matches q e =
      let term = cased q q.search_term in
      let matches = q.search_message && has_text term (cased q e.message) in
      if not matches && q.search_metadata then has_text term (cased q e.metadata) else matches

  unfoldable pub search : FullTextSearchQuery → AuditLogFilter → InMemoryAuditLog → List AuditEvent
  unfolding search_matches
  search q f l = filter (search_matches q) (read f l)

mutual
  pub data FilterLogic : Type 0 where
    and_ : List AuditLogFilter → FilterLogic
    or_ : List AuditLogFilter → FilterLogic
    complex : Conditions → FilterLogic

  pub data Conditions : Type 0 where
    nil : Conditions
    cons : FilterLogic → Bool → Conditions → Conditions

abbrev pub all_and : Conditions → Bool
all_and nil = true
all_and (cons l is_and cs) = is_and && all_and cs

abbrev pub all_or : Conditions → Bool
all_or nil = true
all_or (cons l is_and cs) = not is_and && all_or cs

unfoldable mutual
  pub logic_matches : AuditEvent → FilterLogic → Bool
  logic_matches e (and_ filters) = all (λ f. filter_matches f e) filters
  logic_matches e (or_ filters) = any (λ f. filter_matches f e) filters
  logic_matches e (complex cs) =
      if all_and cs
      then all_match e cs
      else if all_or cs
      then any_match e cs
      else left_to_right e true false cs

  pub all_match : AuditEvent → Conditions → Bool
  all_match e nil = true
  all_match e (cons l is_and cs) = logic_matches e l && all_match e cs

  pub any_match : AuditEvent → Conditions → Bool
  any_match e nil = false
  any_match e (cons l is_and cs) = logic_matches e l || any_match e cs

  -- The loop over mixed conditions; the connective of the first one is not used.
  pub left_to_right : AuditEvent → Bool → Bool → Conditions → Bool
  left_to_right e first result nil = result
  left_to_right e first result (cons l is_and cs) =
      left_to_right e false
        (if first
          then logic_matches e l
          else if is_and
          then result && logic_matches e l
          else result || logic_matches e l)
        cs

abbrev limit_or : ℕ → Option ℕ → ℕ
limit_or n none = n
limit_or n (some m) = m

unfoldable pub query_complex :
    FilterLogic → Option ℕ → Option ℕ → InMemoryAuditLog → List AuditEvent
unfolding logic_matches
query_complex logic limit offset l =
    let events = read (with_limit (limit_or 1000 limit) new_filter) l in
    cut_limit limit (skip_offset offset (filter (λ e. logic_matches e logic) events))

pub record EventStatistics : Type 0 where
  pub total_events : ℕ
  pub info_count : ℕ
  pub warning_count : ℕ
  pub error_count : ℕ
  pub critical_count : ℕ
  pub min_timestamp : Option ℕ
  pub max_timestamp : Option ℕ
  pub unique_plugins : ℕ
  pub most_common_event_type : Option AuditEventType
  pub events_by_type : List (ℕ × ℕ)

-- The variables of the loop over the events. An event type stands for its name.
pub record Tally : Type 0 where
  pub infos : ℕ
  pub warnings : ℕ
  pub errors : ℕ
  pub criticals : ℕ
  pub earliest : Option ℕ
  pub newest : Option ℕ
  pub plugins : List Text
  pub types : List (ℕ × ℕ)

abbrev pub no_tally : Tally
no_tally = record {
  infos = 0;
  warnings = 0;
  errors = 0;
  criticals = 0;
  earliest = none;
  newest = none;
  plugins = [];
  types = [];
}

abbrev pub lower : Option ℕ → ℕ → Option ℕ
lower none t = some t
lower (some s) t = if ltb t s then some t else some s

abbrev pub raise : Option ℕ → ℕ → Option ℕ
raise none t = some t
raise (some s) t = if ltb s t then some t else some s

-- `*entry(k).or_insert(0) += 1`
abbrev pub bump : ℕ → List (ℕ × ℕ) → List (ℕ × ℕ)
bump k [] = (k, 1) ∷ []
bump k ((j, n) ∷ m) = if j == k then (j, suc n) ∷ m else (j, n) ∷ bump k m

abbrev pub count_severity : AuditSeverity → Tally → Tally
count_severity info s = record s { infos = s.infos + 1 }
count_severity warning s = record s { warnings = s.warnings + 1 }
count_severity error s = record s { errors = s.errors + 1 }
count_severity critical s = record s { criticals = s.criticals + 1 }

unfoldable pub tally : AuditEvent → Tally → Tally
tally e s = record (count_severity e.severity s) {
  earliest = lower s.earliest e.timestamp;
  newest = raise s.newest e.timestamp;
  plugins = set_insert e.plugin_name s.plugins;
  types = bump (event_type_index e.event_type) s.types;
}

unfoldable pub tally_all : List AuditEvent → Tally → Tally
unfolding tally
tally_all [] s = s
tally_all (e ∷ es) s = tally_all es (tally e s)

abbrev pub first_type : List AuditEvent → Option AuditEventType
first_type [] = none
first_type (e ∷ es) = some e.event_type

unfoldable pub from_events : List AuditEvent → EventStatistics
unfolding tally_all
from_events es =
    let s = tally_all es no_tally in
    record {
      total_events = length es;
      info_count = s.infos;
      warning_count = s.warnings;
      error_count = s.errors;
      critical_count = s.criticals;
      min_timestamp = s.earliest;
      max_timestamp = s.newest;
      unique_plugins = length s.plugins;
      most_common_event_type = first_type es;
      events_by_type = s.types;
    }

unfoldable pub statistics : AuditLogFilter → InMemoryAuditLog → EventStatistics
unfolding from_events
statistics f l = from_events (read f l)
