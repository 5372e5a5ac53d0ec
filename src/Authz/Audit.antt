-- ===== src/Authz/Audit.antt =====
-- The audit log of permissions/src/authz.rs: `AuthzAuditLog`.
use Prim.Native.Nat.{min}
use skylet.Prelude.{
  ℕ, suc, ◌≤◌, ◌<◌, ◌≡◌, refl, sym, ap, ◌∙◌, Bool, Option, none, some, List, [], ◌∷◌, ◌++◌, arith,
  leb, if◌then◌else◌,
}
use mathlib.Core.List.{append-nil, append_assoc}
use native.Mathlib.Decide.{dec_lt}
use skylet.Prelude.Lists.{length, filter, length-append}
use skylet.Prelude.Texts.{Text, text_eq}

pub data AuthzEventType : Type 0 where
  permission_check role_assignment role_removal resource_grant resource_revoke : AuthzEventType

pub record AuthzAuditEvent : Type 0 where
  pub timestamp : ℕ
  pub event_type : AuthzEventType
  pub user_id : Text
  pub permission : Option Text
  pub resource : Option Text
  pub granted : Bool
  pub reason : Option Text

pub record AuthzAuditLog : Type 0 where
  pub events : List AuthzAuditEvent
  pub max_events : ℕ

abbrev pub new_log : ℕ → AuthzAuditLog
new_log max_events = record { events = []; max_events = max_events }

-- `Vec::remove(0)`, which panics on an empty vector.
abbrev remove_first : List AuthzAuditEvent → Option (List AuthzAuditEvent)
remove_first [] = none
remove_first (e ∷ es) = some es

abbrev pushed :
    AuthzAuditEvent → AuthzAuditLog → Option (List AuthzAuditEvent) → Option AuthzAuditLog
pushed event l none = none
pushed event l (some es) = some (record l { events = es ++ event ∷ [] })

-- `AuthzAuditLog::log`; `none` is a panic.
unfoldable pub log : AuthzAuditEvent → AuthzAuditLog → Option AuthzAuditLog
log event l =
    if leb l.max_events (length l.events)
    then pushed event l (remove_first l.events)
    else pushed event l (some l.events)

unfoldable pub get_events_for_user : Text → AuthzAuditLog → List AuthzAuditEvent
get_events_for_user user l = filter (λ e. text_eq e.user_id user) l.events

unfoldable pub log_all : List AuthzAuditEvent → AuthzAuditLog → Option AuthzAuditLog
log_all [] l = some l
log_all (e ∷ es) l = elim (log e l) [ none ↦ none | some l' ↦ log_all es l' ]

-- A log holds the last events of a history: `older` are dropped, and only if the log is full.
record IsLatest (history : List AuthzAuditEvent) (l : AuthzAuditLog) : Type 0 where
  older : List AuthzAuditEvent
  split : older ++ l.events ≡ history
  full : length l.events ≡ min l.max_events (length history)

-- One more event, in a full log and in one with room.
module _ (m : ℕ) (es older : List AuthzAuditEvent) (e : AuthzAuditEvent) where
  abbrev with_events : List AuthzAuditEvent → AuthzAuditLog
  with_events l = record { events = l; max_events = m }

  log-room : length es < m → log e (with_events es) ≡ some (with_events (es ++ e ∷ []))
  unfolding log
  log-room h = ground arith

  log-full :
      (x : AuthzAuditEvent)
      → m ≤ length (x ∷ es)
      → log e (with_events (x ∷ es)) ≡ some (with_events (es ++ e ∷ []))
  unfolding log
  log-full x h = ground arith

record Logged (history : List AuthzAuditEvent) (m : ℕ) (r : Option AuthzAuditLog) : Type 0 where
  final : AuthzAuditLog
  returned : r ≡ some final
  bound : final.max_events ≡ m
  latest : IsLatest history final

log-Logged :
    (m : ℕ) (es history : List AuthzAuditEvent) (e : AuthzAuditEvent)
    → 0 < m
    → IsLatest history (record { events = es; max_events = m })
    → Logged (history ++ e ∷ []) m (log e (record { events = es; max_events = m }))
log-Logged m [] history e p h = record {
  final = record { events = e ∷ []; max_events = m };
  returned = log-room m [] [] e p;
  bound = refl;
  latest = record {
    older = h.older;
    split = ap (λ l. l ++ e ∷ []) (sym (append-nil h.older) ∙ h.split);
    full = omega (arith, length-append history (e ∷ []), h.full);
  };
}
log-Logged m (x ∷ es) history e p h = elim (dec_lt (suc (length es)) m) [
  | yes room ↦ record {
    final = record { events = x ∷ es ++ e ∷ []; max_events = m };
    returned = log-room m (x ∷ es) [] e room;
    bound = refl;
    latest = record {
      older = h.older;
      split = sym (append_assoc h.older (x ∷ es) (e ∷ [])) ∙ ap (λ l. l ++ e ∷ []) h.split;
      full = omega (arith, length-append history (e ∷ []), length-append es (e ∷ []), h.full);
    };
  }
  | no full ↦ record {
    final = record { events = es ++ e ∷ []; max_events = m };
    returned = log-full m es [] e x (omega arith);
    bound = refl;
    latest = record {
      older = h.older ++ x ∷ [];
      split = shift ∙ ap (λ l. l ++ e ∷ []) h.split;
      full = omega (arith, length-append history (e ∷ []), length-append es (e ∷ []), h.full);
    };
  }
]
  where
    shift : (h.older ++ x ∷ []) ++ (es ++ e ∷ []) ≡ (h.older ++ x ∷ es) ++ e ∷ []
    shift = simp append_assoc

log_all-Logged :
    (m : ℕ) (es history : List AuthzAuditEvent) (l : AuthzAuditLog)
    → 0 < m
    → l.max_events ≡ m
    → IsLatest history l
    → Logged (history ++ es) m (log_all es l)
unfolding log_all
log_all-Logged m [] history l p b h =
    rw append-nil (record { final = l; returned = refl; bound = b; latest = h })
log_all-Logged m (e ∷ es) history l p b h =
    let one = log-Logged l.max_events l.events history e (omega arith) h in
    let rest : Logged ((history ++ e ∷ []) ++ es) m (log_all es one.final) =
      log_all-Logged m es (history ++ e ∷ []) one.final p (one.bound ∙ b) one.latest in
    rw (one.returned, log_all) (rw append_assoc at rest)

-- A log with room for at least one event never panics, and after any events it holds the last of
-- them: as many as there are, up to its bound.
pub log_all-latest :
    (m : ℕ) (es : List AuthzAuditEvent)
    → 0 < m
    → (l : AuthzAuditLog) × (older : List AuthzAuditEvent) × (log_all es (new_log m) ≡ some l)
      × (older ++ l.events ≡ es)
      × (length l.events ≡ min m (length es))
log_all-latest m es p =
    let r =
      log_all-Logged m es [] (new_log m) p refl
        (record { older = []; split = refl; full = omega arith }) in
    let full : length r.final.events ≡ min m (length es) = omega (arith, r.latest.full, r.bound) in
    (r.final, r.latest.older, r.returned, r.latest.split, full)

-- A log with no room panics at its first event.
pub log-empty_panics : (e : AuthzAuditEvent) → log e (new_log 0) ≡ none
unfolding log
log-empty_panics e = refl
