-- ===== src/Audit/Retention.antt =====
-- Which events the log in memory of abi/src/audit.rs keeps.
use skylet.Prelude.{
  ℕ, zero, suc, ◌+◌, ◌-◌, ◌≤◌, ◌≡◌, refl, sym, ap, ◌∙◌, Bool, true, false, not, ◌&&◌, none, some,
  List, [], ◌∷◌, ◌++◌, arith, ltb, leb, if◌then◌else◌, Bool-cases, inl, inr, ltb→lt, ◌==◌,
}
use mathlib.Core.List.{append-nil, append_assoc}
use skylet.Prelude.Lists.{length, length-append, length-filter-le, filter}
use skylet.Audit.{
  AuditEvent, AuditLogFilter, InMemoryAuditLog, new_memory_log, drop, write, count, purge_before,
  filter_matches, allows, event_type_index, severity_rank, is_stage, is_action,
}
use skylet.Prelude.Texts.{has_text}

length-drop : (n : ℕ) (es : List AuditEvent) → length (drop n es) ≡ length es - n
length-drop zero es = omega arith
length-drop (suc n) [] = omega arith
length-drop (suc n) (e ∷ es) = omega (arith, length-drop n es)

drop-append :
    (n : ℕ) (es fs : List AuditEvent) → n ≤ length es → drop n (es ++ fs) ≡ drop n es ++ fs
drop-append zero es fs h = refl
drop-append (suc n) [] fs h = absurd (omega arith)
drop-append (suc n) (e ∷ es) fs h = drop-append n es fs (omega arith)

drop-nil : (n : ℕ) → drop n [] ≡ []
drop-nil zero = refl
drop-nil (suc n) = refl

pub drop-drop : (m n : ℕ) (es : List AuditEvent) → drop m (drop n es) ≡ drop (n + m) es
drop-drop m zero es = ap (λ k. drop k es) (omega arith)
drop-drop m (suc n) [] = drop-nil m ∙ sym (drop-nil (suc n + m))
drop-drop m (suc n) (e ∷ es) = drop-drop m n es ∙ ap (λ k. drop k (e ∷ es)) shift
  where
    shift : suc (n + m) ≡ suc n + m
    shift = omega arith

unfoldable pub write_all : List AuditEvent → InMemoryAuditLog → InMemoryAuditLog
unfolding write
write_all [] l = l
write_all (e ∷ es) l = write_all es (write e l)

-- The last events of a history, `m` at most.
abbrev pub latest : ℕ → List AuditEvent → List AuditEvent
latest m history = drop (length history - m) history

write-latest :
    (m : ℕ) (history : List AuditEvent) (e : AuditEvent)
    → write e (record { events = latest m history; max_events = m })
      ≡ record { events = latest m (history ++ e ∷ []); max_events = m }
unfolding write
write-latest m history e =
    let k = length history - m in
    let all = history ++ e ∷ [] in
    let pushed : drop k history ++ e ∷ [] ≡ drop k all =
      sym (drop-append k history (e ∷ []) (omega arith)) in
    let len : length (drop k all) ≡ length history + 1 - k =
      omega (arith, length-drop k all, length-append history (e ∷ [])) in
    rw pushed (elim (Bool-cases (ltb m (length (drop k all)))) [
      | inl full ↦ rw full (
          ap with_events (
            drop-drop (length (drop k all) - m) k all
            ∙ ap (λ n. drop n all)
                (omega (arith, len, ltb→lt _ _ full, length-append history (e ∷ [])))))
      | inr room ↦ rw room (
          ap with_events (
            ap (λ n. drop n all)
              (omega (arith, len, room_lem room, length-append history (e ∷ [])))))
    ])
  where
    with_events : List AuditEvent → InMemoryAuditLog
    with_events es = record { events = es; max_events = m }

    room_lem : {n : ℕ} → ltb m n ≡ false → n ≤ m
    room_lem h = ground arith

write_all-latest :
    (m : ℕ) (history es : List AuditEvent)
    → write_all es (record { events = latest m history; max_events = m })
      ≡ record { events = latest m (history ++ es); max_events = m }
unfolding write_all
write_all-latest m history [] = rw append-nil refl
write_all-latest m history (e ∷ es) =
    ap (write_all es) (write-latest m history e)
    ∙ write_all-latest m (history ++ e ∷ []) es
    ∙ rw append_assoc refl

-- After any events a new log holds the last of them, in their order: all, or as many as its bound.
pub new_memory_log-write_all :
    (m : ℕ) (es : List AuditEvent) → (write_all es (new_memory_log m)).events ≡ latest m es
new_memory_log-write_all m es =
    ap (λ (l : InMemoryAuditLog). (write_all es l).events) start
    ∙ ap (λ (l : InMemoryAuditLog). l.events) (write_all-latest m [] es)
  where
    start : new_memory_log m ≡ record { events = latest m []; max_events = m }
    start = ap (λ l. record { events = l; max_events = m }) (sym (drop-nil (0 - m)))

-- The early returns of a filter, where its start is tested by `r`.
abbrev guards : Bool → Bool → Bool → Bool → Bool → Bool → Bool → Bool
guards a b c d x r y =
    if not a
    then false
    else if not b
    then false
    else if not c
    then false
    else if not d
    then false
    else if not x
    then false
    else if not r
    then false
    else if not y
    then false
    else true

guards_start : (a b c d x r y : Bool) → guards a b c d x r y ≡ (r && guards a b c d x true y)
guards_start true true true true true true y = refl
guards_start true true true true true false y = refl
guards_start true true true true false true y = refl
guards_start true true true true false false y = refl
guards_start true true true false x true y = refl
guards_start true true true false x false y = refl
guards_start true true false d x true y = refl
guards_start true true false d x false y = refl
guards_start true false c d x true y = refl
guards_start true false c d x false y = refl
guards_start false b c d x true y = refl
guards_start false b c d x false y = refl

not-ltb : (a b : ℕ) → not (ltb a b) ≡ leb b a
not-ltb a b = ground arith

module _ (t : ℕ) (f : AuditLogFilter) (none_set : f.start_time ≡ none) where
  filter_from :
      (e : AuditEvent)
      → filter_matches (record f { start_time = some t }) e
        ≡ (leb t e.timestamp && filter_matches f e)
  unfolding filter_matches
  filter_from e = rw none_set (
      guards_start (allows (λ name. has_text name e.plugin_name) f.plugin_name)
        (allows (λ k. event_type_index e.event_type == event_type_index k) f.event_type)
        (allows (λ k. not (ltb (severity_rank e.severity) (severity_rank k))) f.min_severity)
        (allows (is_stage e.stage) f.stage) (allows (is_action e.recovery_action) f.recovery_action)
        (not (ltb e.timestamp t)) (allows (λ end. not (ltb end e.timestamp)) f.end_time)
      ∙ rw (not-ltb e.timestamp t) refl)

  length-filter_from :
      (es : List AuditEvent)
      → length (filter (filter_matches f) (filter (λ e. leb t e.timestamp) es))
        ≡ length (filter (filter_matches (record f { start_time = some t })) es)
  length-filter_from [] = refl
  length-filter_from (e ∷ es) = ground (arith, filter_from e, length-filter_from es)

-- After a purge, counting by a filter with no start gives what counting by it with the time of the purge
-- as its start gave before; the number that the purge returns is that of the events that are gone.
pub purge_before-count :
    (t : ℕ) (f : AuditLogFilter) (l : InMemoryAuditLog)
    → f.start_time ≡ none
    → (count f (purge_before t l).0 ≡ count (record f { start_time = some t }) l)
      × ((purge_before t l).1 + length (purge_before t l).0.events ≡ length l.events)
unfolding count purge_before
purge_before-count t f l h = (
  length-filter_from t f h l.events,
  omega (arith, length-filter-le (λ e. leb t e.timestamp) l.events),
)
