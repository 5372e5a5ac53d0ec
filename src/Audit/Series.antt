-- ===== src/Audit/Series.antt =====
-- The aggregation of abi/src/audit.rs: events counted by periods of time.
use skylet.Prelude.{ℕ, ◌+◌, ◌*◌, ◌/◌, Option, none, some, List, [], ◌∷◌, ltb, ◌==◌, if◌then◌else◌}
use skylet.Audit.{
  AuditSeverity, AuditEvent, AuditLogFilter, InMemoryAuditLog, info, warning, error, critical, read,
}

pub record AggregationBucket : Type 0 where
  pub bucket_time : ℕ
  pub event_count : ℕ
  pub info_count : ℕ
  pub warning_count : ℕ
  pub error_count : ℕ
  pub critical_count : ℕ

abbrev pub new_bucket : ℕ → AggregationBucket
new_bucket bucket_time = record {
  bucket_time = bucket_time;
  event_count = 0;
  info_count = 0;
  warning_count = 0;
  error_count = 0;
  critical_count = 0;
}

unfoldable pub add_event : AuditSeverity → AggregationBucket → AggregationBucket
add_event info b = record b { event_count = b.event_count + 1; info_count = b.info_count + 1 }
add_event warning b = record b {
  event_count = b.event_count + 1;
  warning_count = b.warning_count + 1;
}
add_event error b = record b { event_count = b.event_count + 1; error_count = b.error_count + 1 }
add_event critical b = record b {
  event_count = b.event_count + 1;
  critical_count = b.critical_count + 1;
}

pub record TimeSeriesAggregation : Type 0 where
  pub filter_by : AuditLogFilter
  pub bucket_size_seconds : ℕ

abbrev pub new_series : AuditLogFilter → ℕ → TimeSeriesAggregation
new_series f size = record { filter_by = f; bucket_size_seconds = size }

abbrev pub hourly : AuditLogFilter → TimeSeriesAggregation
hourly f = new_series f 3600

abbrev pub daily : AuditLogFilter → TimeSeriesAggregation
daily f = new_series f 86400

abbrev pub weekly : AuditLogFilter → TimeSeriesAggregation
weekly f = new_series f 604800

abbrev pub monthly : AuditLogFilter → TimeSeriesAggregation
monthly f = new_series f 2592000

-- `none` is the panic of a division by zero.
unfoldable pub get_bucket_time : TimeSeriesAggregation → ℕ → Option ℕ
get_bucket_time a timestamp =
    if a.bucket_size_seconds == 0
    then none
    else some (timestamp / a.bucket_size_seconds * a.bucket_size_seconds)

-- The entry of a `BTreeMap` from the times of the buckets, in ascending order.
unfoldable pub add_to : ℕ → AuditSeverity → List AggregationBucket → List AggregationBucket
unfolding add_event
add_to t severity [] = add_event severity (new_bucket t) ∷ []
add_to t severity (b ∷ bs) =
    if ltb t b.bucket_time
    then add_event severity (new_bucket t) ∷ b ∷ bs
    else if t == b.bucket_time
    then add_event severity b ∷ bs
    else b ∷ add_to t severity bs

unfoldable pub add_events :
    TimeSeriesAggregation
    → List AuditEvent
    → List AggregationBucket
    → Option (List AggregationBucket)
unfolding get_bucket_time add_to
add_events a [] bs = some bs
add_events a (e ∷ es) bs = elim (get_bucket_time a e.timestamp) [
  | none ↦ none
  | some t ↦ add_events a es (add_to t e.severity bs)
]

unfoldable pub aggregate_events :
    TimeSeriesAggregation → List AuditEvent → Option (List AggregationBucket)
unfolding add_events
aggregate_events a es = add_events a es []

unfoldable pub aggregate :
    TimeSeriesAggregation → InMemoryAuditLog → Option (List AggregationBucket)
unfolding aggregate_events
aggregate a l = aggregate_events a (read a.filter_by l)
