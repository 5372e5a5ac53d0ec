-- ===== src/Audit/Buckets.antt =====
-- The aggregation by time and the statistics of abi/src/audit.rs count every event once.
use skylet.Prelude.{
  ℕ, ◌+◌, ◌*◌, ◌/◌, ◌<◌, ◌≡◌, refl, Bool, ◌&&◌, some, List, [], ◌∷◌, arith, ltb, ◌==◌,
  if◌then◌else◌, Bool-cases, inl, inr, ltb→lt,
}
use skylet.Prelude.Lists.{length, filter, All}
use skylet.Audit.{AuditEvent, AuditSeverity, info, warning, error, critical, severity_rank}
use skylet.Audit.Series.{
  AggregationBucket, TimeSeriesAggregation, new_bucket, add_event, add_to, add_events,
  aggregate_events, get_bucket_time,
}

abbrev pub severity_count : AuditSeverity → AggregationBucket → ℕ
severity_count info b = b.info_count
severity_count warning b = b.warning_count
severity_count error b = b.error_count
severity_count critical b = b.critical_count

-- The sum of a count over the buckets of one time.
abbrev pub total : (AggregationBucket → ℕ) → ℕ → List AggregationBucket → ℕ
total f t [] = 0
total f t (b ∷ bs) = let rest = total f t bs in if b.bucket_time == t then f b + rest else rest

-- The buckets are in ascending order, each time once, and all behind `t`.
abbrev pub Ascending : ℕ → List AggregationBucket → Type 0
Ascending t [] = Unit
Ascending t (b ∷ bs) = (t < b.bucket_time) × Ascending b.bucket_time bs

abbrev pub IsAscending : List AggregationBucket → Type 0
IsAscending [] = Unit
IsAscending (b ∷ bs) = Ascending b.bucket_time bs

-- The period of an event begins at `t`.
abbrev pub in_period : TimeSeriesAggregation → ℕ → AuditEvent → Bool
in_period a t e = e.timestamp / a.bucket_size_seconds * a.bucket_size_seconds == t

abbrev pub has_severity : AuditSeverity → AuditEvent → Bool
has_severity s e = severity_rank e.severity == severity_rank s

-- The buckets of some events: in ascending order, none of them empty, and each with the number of the
-- events of its period, in all and of each severity. Periods without a bucket have no events.
pub record IsAggregation (a : TimeSeriesAggregation) (es : List AuditEvent)
    (bs : List AggregationBucket) : Type 0 where
  pub ascending : IsAscending bs
  pub filled : All (λ b. 0 < b.event_count) bs
  pub counted : (t : ℕ) → total (λ b. b.event_count) t bs ≡ length (filter (in_period a t) es)
  pub by_severity :
      (s : AuditSeverity) (t : ℕ)
      → total (severity_count s) t bs
        ≡ length (filter (λ e. in_period a t e && has_severity s e) es)

add_event-bucket_time :
    (s : AuditSeverity) (b : AggregationBucket) → (add_event s b).bucket_time ≡ b.bucket_time
unfolding add_event
add_event-bucket_time info b = refl
add_event-bucket_time warning b = refl
add_event-bucket_time error b = refl
add_event-bucket_time critical b = refl

add_event-event_count :
    (s : AuditSeverity) (b : AggregationBucket) → (add_event s b).event_count ≡ b.event_count + 1
unfolding add_event
add_event-event_count info b = refl
add_event-event_count warning b = refl
add_event-event_count error b = refl
add_event-event_count critical b = refl

abbrev one_if : Bool → ℕ
one_if b = if b then 1 else 0

add_event-severity_count :
    (k s : AuditSeverity) (b : AggregationBucket)
    → severity_count k (add_event s b)
      ≡ severity_count k b + one_if (severity_rank s == severity_rank k)
unfolding add_event
add_event-severity_count info s b = ground arith
add_event-severity_count warning s b = ground arith
add_event-severity_count error s b = ground arith
add_event-severity_count critical s b = ground arith

new_bucket-severity_count : (k : AuditSeverity) (t : ℕ) → severity_count k (new_bucket t) ≡ 0
new_bucket-severity_count info t = refl
new_bucket-severity_count warning t = refl
new_bucket-severity_count error t = refl
new_bucket-severity_count critical t = refl

-- The loop over the events, where the size of the periods is not 0.
abbrev period : TimeSeriesAggregation → AuditEvent → ℕ
period a e = e.timestamp / a.bucket_size_seconds * a.bucket_size_seconds

fold_in : TimeSeriesAggregation → List AuditEvent → List AggregationBucket → List AggregationBucket
fold_in a [] bs = bs
fold_in a (e ∷ es) bs = fold_in a es (add_to (period a e) e.severity bs)

add_events-fold_in :
    (a : TimeSeriesAggregation) (es : List AuditEvent) (bs : List AggregationBucket)
    → 0 < a.bucket_size_seconds
    → add_events a es bs ≡ some (fold_in a es bs)
unfolding add_events get_bucket_time fold_in
add_events-fold_in a [] bs h = refl
add_events-fold_in a (e ∷ es) bs h =
    ground (arith, add_events-fold_in a es (add_to (period a e) e.severity bs) h)

-- A count of buckets, to which an event of severity `s` adds `w s`.
module _ (f : AggregationBucket → ℕ) (w : AuditSeverity → ℕ)
    (starts : (t : ℕ) → f (new_bucket t) ≡ 0)
    (adds : (s : AuditSeverity) (b : AggregationBucket) → f (add_event s b) ≡ f b + w s) where
  total-add_to :
      (u t : ℕ) (s : AuditSeverity) (bs : List AggregationBucket)
      → total f t (add_to u s bs) ≡ total f t bs + (if u == t then w s else 0)
  unfolding add_to
  total-add_to u t s [] =
      ground (arith, starts u, adds s (new_bucket u), add_event-bucket_time s (new_bucket u))
  total-add_to u t s (b ∷ bs) = ground (
    arith,
    starts u,
    adds s (new_bucket u),
    adds s b,
    add_event-bucket_time s (new_bucket u),
    add_event-bucket_time s b,
    total-add_to u t s bs,
  )

  weigh : TimeSeriesAggregation → ℕ → List AuditEvent → ℕ
  weigh a t [] = 0
  weigh a t (e ∷ es) = (if period a e == t then w e.severity else 0) + weigh a t es

  total-fold_in :
      (a : TimeSeriesAggregation) (t : ℕ) (es : List AuditEvent) (bs : List AggregationBucket)
      → total f t (fold_in a es bs) ≡ total f t bs + weigh a t es
  unfolding fold_in weigh
  total-fold_in a t [] bs = omega arith
  total-fold_in a t (e ∷ es) bs = omega (
    arith,
    total-fold_in a t es (add_to (period a e) e.severity bs),
    total-add_to (period a e) t e.severity bs,
  )

add_to-Ascending :
    (t u : ℕ) (s : AuditSeverity) (bs : List AggregationBucket)
    → t < u
    → Ascending t bs
    → Ascending t (add_to u s bs)
unfolding add_to
add_to-Ascending t u s [] h k = ground (arith, add_event-bucket_time s (new_bucket u))
add_to-Ascending t u s (b ∷ bs) h k = elim (Bool-cases (ltb u b.bucket_time)) [
  | inl before ↦
      rw before
        (rw (add_event-bucket_time s (new_bucket u)) (h, (ltb→lt u b.bucket_time before, k.1)))
  | inr behind ↦ rw behind (elim (Bool-cases (u == b.bucket_time)) [
    | inl here ↦ rw here (rw (add_event-bucket_time s b) k)
    | inr there ↦
        rw there (k.0, add_to-Ascending b.bucket_time u s bs (ground (arith, behind, there)) k.1)
  ])
]

add_to-IsAscending :
    (u : ℕ) (s : AuditSeverity) (bs : List AggregationBucket)
    → IsAscending bs
    → IsAscending (add_to u s bs)
unfolding add_to
add_to-IsAscending u s [] h = tt
add_to-IsAscending u s (b ∷ bs) h = elim (Bool-cases (ltb u b.bucket_time)) [
  | inl before ↦
      rw before (rw (add_event-bucket_time s (new_bucket u)) (ltb→lt u b.bucket_time before, h))
  | inr behind ↦ rw behind (elim (Bool-cases (u == b.bucket_time)) [
    | inl here ↦ rw here (rw (add_event-bucket_time s b) h)
    | inr there ↦ rw there (add_to-Ascending b.bucket_time u s bs (ground (arith, behind, there)) h)
  ])
]

add_to-filled :
    (u : ℕ) (s : AuditSeverity) (bs : List AggregationBucket)
    → All (λ b. 0 < b.event_count) bs
    → All (λ b. 0 < b.event_count) (add_to u s bs)
unfolding add_to
add_to-filled u s [] h = ground (arith, add_event-event_count s (new_bucket u))
add_to-filled u s (b ∷ bs) h = ground (
  arith,
  h,
  add_event-event_count s (new_bucket u),
  add_event-event_count s b,
  add_to-filled u s bs h.1,
)

fold_in-IsAscending :
    (a : TimeSeriesAggregation) (es : List AuditEvent) (bs : List AggregationBucket)
    → IsAscending bs
    → All (λ b. 0 < b.event_count) bs
    → IsAscending (fold_in a es bs) × All (λ b. 0 < b.event_count) (fold_in a es bs)
unfolding fold_in
fold_in-IsAscending a [] bs h k = (h, k)
fold_in-IsAscending a (e ∷ es) bs h k =
    fold_in-IsAscending a es (add_to (period a e) e.severity bs)
      (add_to-IsAscending (period a e) e.severity bs h) (add_to-filled (period a e) e.severity bs k)

weigh-length :
    (a : TimeSeriesAggregation) (t : ℕ) (es : List AuditEvent)
    → weigh (λ b. b.event_count) (λ s. 1) (λ t. refl) add_event-event_count a t es
      ≡ length (filter (in_period a t) es)
unfolding weigh
weigh-length a t [] = refl
weigh-length a t (e ∷ es) = ground (arith, weigh-length a t es)

abbrev has_rank : AuditSeverity → AuditSeverity → ℕ
has_rank k s = one_if (severity_rank s == severity_rank k)

weigh-by_severity :
    (k : AuditSeverity) (a : TimeSeriesAggregation) (t : ℕ) (es : List AuditEvent)
    → weigh
        (severity_count k)
        (has_rank k)
        (new_bucket-severity_count k)
        (add_event-severity_count k)
        a
        t
        es
      ≡ length (filter (λ e. in_period a t e && has_severity k e) es)
unfolding weigh
weigh-by_severity k a t [] = refl
weigh-by_severity k a t (e ∷ es) = ground (arith, weigh-by_severity k a t es)

-- Where the periods are not empty, the aggregation of any events is found, and counts each of them in
-- the bucket of its period, in all and by severity.
pub aggregate_events-IsAggregation :
    (a : TimeSeriesAggregation) (es : List AuditEvent)
    → 0 < a.bucket_size_seconds
    → (bs : List AggregationBucket) × (aggregate_events a es ≡ some bs) × IsAggregation a es bs
unfolding aggregate_events
aggregate_events-IsAggregation a es h =
    let shape = fold_in-IsAscending a es [] tt tt in
    (
      fold_in a es [],
      add_events-fold_in a es [] h,
      record {
        ascending = shape.0;
        filled = shape.1;
        counted = λ t. omega (
          arith,
          total-fold_in (λ b. b.event_count) (λ s. 1) (λ t. refl) add_event-event_count a t es [],
          weigh-length a t es,
        );
        by_severity = λ k t. omega (
          arith,
          total-fold_in (severity_count k) (has_rank k) (new_bucket-severity_count k)
              (add_event-severity_count k) a t es [],
          weigh-by_severity k a t es,
        );
      },
    )
