-- ===== src/Examples/Trails.antt =====
-- The audit trail (abi/src/audit.rs) at sample values.
use skylet.Prelude.{ℕ, ◌+◌, ◌++◌, ◌≡◌, ◌↔◌, refl, true, false, some, none, List, [], ◌∷◌, ok, arith}
use skylet.Prelude.Lists.{length}
use skylet.Prelude.Texts.{Text, codes}
use skylet.Audit.{
  AuditEvent, InMemoryAuditLog, AuditLogFilter, new_event, new_memory_log, new_filter,
  filter_min_severity, load_started, load_failed, retry_attempted, info, warning, error, count,
  purge_before,
}
use skylet.Audit.Queries.{or_, complex, cons, nil, logic_matches, left_to_right, query_complex}
use skylet.Audit.Series.{AggregationBucket, hourly, aggregate_events}
use skylet.Audit.Buckets.{aggregate_events-IsAggregation, IsAggregation}
use skylet.Audit.Logic.{complex-left_to_right}
use skylet.Audit.Paging.{query_complex-limit}
use skylet.Audit.Retention.{write_all, new_memory_log-write_all, purge_before-count}
use skylet.Audit.Signing.{sign, verify_chain, verify_chain_iff, AllSigned, sign-forged}

abbrev started : AuditEvent
started = new_event 1 7190 load_started info (codes "mail") (codes "start")

abbrev retried : AuditEvent
retried = new_event 2 7205 retry_attempted warning (codes "mail") (codes "again")

abbrev failed : AuditEvent
failed = new_event 3 9000 load_failed error (codes "db|log") (codes "gone")

abbrev history : List AuditEvent
history = started ∷ retried ∷ failed ∷ []

abbrev trail : InMemoryAuditLog
trail = record { events = history; max_events = 3 }

abbrev warnings : AuditLogFilter
warnings = filter_min_severity warning new_filter

-- A digest that is the text itself behind the key.
abbrev plain_digest : List ℕ → List ℕ → Text
plain_digest key bytes = key ++ bytes

aggregate_events-IsAggregation_example :
    (bs : List AggregationBucket) × (aggregate_events (hourly warnings) history ≡ some bs)
    × IsAggregation (hourly warnings) history bs
aggregate_events-IsAggregation_example =
    aggregate_events-IsAggregation (hourly warnings) history (ground arith)

complex-left_to_right_example :
    logic_matches failed
      (complex (cons (or_ (warnings ∷ [])) true (cons (or_ []) false (cons (or_ []) true nil))))
    ≡ left_to_right failed false
        (logic_matches failed (or_ (warnings ∷ [])))
        (cons (or_ []) false (cons (or_ []) true nil))
complex-left_to_right_example =
    complex-left_to_right failed (or_ (warnings ∷ [])) true
      (cons (or_ []) false (cons (or_ []) true nil))

query_complex-limit_example :
    query_complex (or_ (warnings ∷ [])) (some 1) none trail
    ≡ query_complex (or_ (warnings ∷ [])) (some 1) none (record trail { events = started ∷ [] })
query_complex-limit_example = query_complex-limit (or_ (warnings ∷ [])) 1 none trail

new_memory_log-write_all_example :
    (write_all history (new_memory_log 2)).events ≡ retried ∷ failed ∷ []
new_memory_log-write_all_example = new_memory_log-write_all 2 history

purge_before-count_example :
    (count warnings (purge_before 7200 trail).0
      ≡ count (record warnings { start_time = some 7200 }) trail)
    × ((purge_before 7200 trail).1 + length (purge_before 7200 trail).0.events ≡ 3)
purge_before-count_example = purge_before-count 7200 warnings trail refl

verify_chain_iff_example :
    (verify_chain plain_digest (1 ∷ []) history (codes "a" ∷ codes "b" ∷ codes "c" ∷ []) ≡ ok true)
    ↔ AllSigned plain_digest (1 ∷ []) history (codes "a" ∷ codes "b" ∷ codes "c" ∷ [])
verify_chain_iff_example =
    verify_chain_iff plain_digest (1 ∷ []) history (codes "a" ∷ codes "b" ∷ codes "c" ∷ [])

sign-forged_example :
    sign plain_digest (1 ∷ []) failed
    ≡ sign plain_digest (1 ∷ []) (record started {
      event_id = 3;
      event_type = load_failed;
      plugin_name = codes "db";
      message = codes "log|gone";
      timestamp = 9000;
      severity = error;
    })
sign-forged_example =
    sign-forged plain_digest (1 ∷ []) failed started (codes "db") (codes "log") (codes "gone")
