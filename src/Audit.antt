-- ===== src/Audit.antt =====
-- abi/src/audit.rs: audit events, the filters that select them, and the log that is kept in memory.
-- The clock readings of a new event are arguments. The counters count events that are held in memory,
-- which are fewer than 2 ^ 64.
pub mod Queries
pub mod Series
pub mod Registry
pub mod Signing
pub mod Retention
pub mod Paging
pub mod Buckets
pub mod Logic
use skylet.Prelude.{
  ℕ, zero, suc, ◌+◌, ◌-◌, Bool, true, false, not, ◌&&◌, Option, none, some, List, [], ◌∷◌, ◌++◌,
  ltb, leb, ◌==◌, if◌then◌else◌,
}
use skylet.Prelude.Lists.{length, filter}
use skylet.Prelude.Texts.{Text, has_text}
use skylet.Lifecycle.{
  LifecycleStage, LifecycleErrorType, RecoveryAction, retry, skip, rollback, abort, stage_index,
}

pub data AuditSeverity : Type 0 where
  info warning error critical : AuditSeverity

-- The discriminants, by which severities are compared and printed.
abbrev pub severity_rank : AuditSeverity → ℕ
severity_rank info = 0
severity_rank warning = 1
severity_rank error = 2
severity_rank critical = 3

pub data AuditEventType : Type 0 where
  load_started load_succeeded load_failed recovery_attempted recovery_succeeded recovery_failed
        rollback_started rollback_completed retry_attempted stage_skipped memory_limit_exceeded
        performance_sla_violated validation_passed validation_failed :
      AuditEventType

abbrev pub event_type_index : AuditEventType → ℕ
event_type_index load_started = 0
event_type_index load_succeeded = 1
event_type_index load_failed = 2
event_type_index recovery_attempted = 3
event_type_index recovery_succeeded = 4
event_type_index recovery_failed = 5
event_type_index rollback_started = 6
event_type_index rollback_completed = 7
event_type_index retry_attempted = 8
event_type_index stage_skipped = 9
event_type_index memory_limit_exceeded = 10
event_type_index performance_sla_violated = 11
event_type_index validation_passed = 12
event_type_index validation_failed = 13

-- The derived `PartialEq` of `RecoveryAction`.
abbrev pub action_index : RecoveryAction → ℕ
action_index retry = 0
action_index skip = 1
action_index rollback = 2
action_index abort = 3

pub record AuditEvent : Type 0 where
  pub event_id : ℕ
  pub event_type : AuditEventType
  pub severity : AuditSeverity
  pub plugin_name : Text
  pub stage : Option LifecycleStage
  pub error_type : Option LifecycleErrorType
  pub recovery_action : Option RecoveryAction
  pub message : Text
  pub metadata : Text
  pub timestamp : ℕ
  pub retry_count : Option ℕ
  pub duration_ms : Option ℕ

-- A new event, at a reading of the clock in nanoseconds for its id and one in seconds.
abbrev pub new_event : ℕ → ℕ → AuditEventType → AuditSeverity → Text → Text → AuditEvent
new_event nanos now event_type severity plugin_name message = record {
  event_id = nanos;
  event_type = event_type;
  severity = severity;
  plugin_name = plugin_name;
  stage = none;
  error_type = none;
  recovery_action = none;
  message = message;
  metadata = [];
  timestamp = now;
  retry_count = none;
  duration_ms = none;
}

abbrev pub with_stage : LifecycleStage → AuditEvent → AuditEvent
with_stage stage e = record e { stage = some stage }

abbrev pub with_error_type : LifecycleErrorType → AuditEvent → AuditEvent
with_error_type error_type e = record e { error_type = some error_type }

abbrev pub with_recovery_action : RecoveryAction → AuditEvent → AuditEvent
with_recovery_action action e = record e { recovery_action = some action }

abbrev pub with_metadata : Text → AuditEvent → AuditEvent
with_metadata metadata e = record e { metadata = metadata }

abbrev pub with_retry_count : ℕ → AuditEvent → AuditEvent
with_retry_count count e = record e { retry_count = some count }

abbrev pub with_duration_ms : ℕ → AuditEvent → AuditEvent
with_duration_ms duration_ms e = record e { duration_ms = some duration_ms }

pub record AuditLogFilter : Type 0 where
  pub plugin_name : Option Text
  pub event_type : Option AuditEventType
  pub min_severity : Option AuditSeverity
  pub stage : Option LifecycleStage
  pub recovery_action : Option RecoveryAction
  pub start_time : Option ℕ
  pub end_time : Option ℕ
  pub limit : Option ℕ
  pub offset : Option ℕ

abbrev pub new_filter : AuditLogFilter
new_filter = record {
  plugin_name = none;
  event_type = none;
  min_severity = none;
  stage = none;
  recovery_action = none;
  start_time = none;
  end_time = none;
  limit = none;
  offset = none;
}

abbrev pub filter_plugin_name : Text → AuditLogFilter → AuditLogFilter
filter_plugin_name name f = record f { plugin_name = some name }

abbrev pub filter_event_type : AuditEventType → AuditLogFilter → AuditLogFilter
filter_event_type event_type f = record f { event_type = some event_type }

abbrev pub filter_min_severity : AuditSeverity → AuditLogFilter → AuditLogFilter
filter_min_severity min_severity f = record f { min_severity = some min_severity }

abbrev pub filter_stage : LifecycleStage → AuditLogFilter → AuditLogFilter
filter_stage stage f = record f { stage = some stage }

abbrev pub filter_recovery_action : RecoveryAction → AuditLogFilter → AuditLogFilter
filter_recovery_action action f = record f { recovery_action = some action }

abbrev pub with_time_range : ℕ → ℕ → AuditLogFilter → AuditLogFilter
with_time_range start end f = record f { start_time = some start; end_time = some end }

abbrev pub with_limit : ℕ → AuditLogFilter → AuditLogFilter
with_limit limit f = record f { limit = some limit }

-- A criterion that is not set lets every event pass.
abbrev pub allows {ℓ} : {A : Type ℓ} → (A → Bool) → Option A → Bool
allows test none = true
allows test (some a) = test a

abbrev pub is_stage : Option LifecycleStage → LifecycleStage → Bool
is_stage none stage = false
is_stage (some s) stage = stage_index s == stage_index stage

abbrev pub is_action : Option RecoveryAction → RecoveryAction → Bool
is_action none action = false
is_action (some a) action = action_index a == action_index action

unfoldable pub filter_matches : AuditLogFilter → AuditEvent → Bool
filter_matches f e =
    if not (allows (λ name. has_text name e.plugin_name) f.plugin_name)
    then false
    else if not (allows (λ t. event_type_index e.event_type == event_type_index t) f.event_type)
    then false
    else if not
        (allows (λ s. not (ltb (severity_rank e.severity) (severity_rank s))) f.min_severity)
    then false
    else if not (allows (is_stage e.stage) f.stage)
    then false
    else if not (allows (is_action e.recovery_action) f.recovery_action)
    then false
    else if not (allows (λ start. not (ltb e.timestamp start)) f.start_time)
    then false
    else if not (allows (λ end. not (ltb end e.timestamp)) f.end_time)
    then false
    else true

pub record InMemoryAuditLog : Type 0 where
  pub events : List AuditEvent
  pub max_events : ℕ

abbrev pub new_memory_log : ℕ → InMemoryAuditLog
new_memory_log max_events = record { events = []; max_events = max_events }

unfoldable pub log_len : InMemoryAuditLog → ℕ
log_len l = length l.events

unfoldable pub is_empty : InMemoryAuditLog → Bool
unfolding log_len
is_empty l = log_len l == 0

unfoldable pub clear : InMemoryAuditLog → InMemoryAuditLog
clear l = record l { events = [] }

-- `drain(0..n)` and `skip(n)`.
abbrev pub drop : ℕ → List AuditEvent → List AuditEvent
drop zero es = es
drop (suc n) [] = []
drop (suc n) (e ∷ es) = drop n es

-- `truncate(n)`.
abbrev pub take : ℕ → List AuditEvent → List AuditEvent
take zero es = []
take (suc n) [] = []
take (suc n) (e ∷ es) = e ∷ take n es

unfoldable pub write : AuditEvent → InMemoryAuditLog → InMemoryAuditLog
write event l =
    let events = l.events ++ event ∷ [] in
    record l {
      events =
          if ltb l.max_events (length events)
          then drop (length events - l.max_events) events
          else events;
    }

abbrev pub skip_offset : Option ℕ → List AuditEvent → List AuditEvent
skip_offset none es = es
skip_offset (some n) es = drop n es

abbrev pub cut_limit : Option ℕ → List AuditEvent → List AuditEvent
cut_limit none es = es
cut_limit (some n) es = take n es

unfoldable pub read : AuditLogFilter → InMemoryAuditLog → List AuditEvent
unfolding filter_matches
read f l = cut_limit f.limit (skip_offset f.offset (filter (filter_matches f) l.events))

unfoldable pub count : AuditLogFilter → InMemoryAuditLog → ℕ
unfolding filter_matches
count f l = length (filter (filter_matches f) l.events)

unfoldable pub purge_before : ℕ → InMemoryAuditLog → InMemoryAuditLog × ℕ
purge_before timestamp l =
    let kept = filter (λ e. leb timestamp e.timestamp) l.events in
    (record l { events = kept }, length l.events - length kept)
