-- ===== src/Failover/Overlap.antt =====
-- Calls of one circuit breaker (src/plugin_manager/failover.rs) that overlap: each step that other threads
-- may come between is an event of its own.
use skylet.Prelude.{
  ℕ, ◌+◌, ◌-◌, ◌<◌, ◌≡◌, ◌⊎◌, refl, List, [], ◌∷◌, arith, u64_mod, inl, ltb, if◌then◌else◌,
}
use skylet.Failover.{
  closed, open_, CircuitBreaker, new_breaker, clear_failures, close_recovered, record_success,
  record_failure, store_last_failure, count_failure, should_allow_request,
}

-- The breaker, and how many calls of `record_success` have cleared the count and not yet taken the lock
-- of the state.
pub record System : Type 0 where
  pub breaker : CircuitBreaker
  pub pending : ℕ

pub data Event : Type 0 where
  clear finish : Event
  store count ask : ℕ → Event

-- A `finish` that no call is up to changes nothing.
unfoldable pub advance : Event → System → System
unfolding count_failure should_allow_request
advance clear s = record { breaker = clear_failures s.breaker; pending = s.pending + 1 }
advance finish s =
    if ltb 0 s.pending
    then record { breaker = close_recovered s.breaker; pending = s.pending - 1 }
    else s
advance (store now) s = record s { breaker = store_last_failure now s.breaker }
advance (count now) s = record s { breaker = count_failure now s.breaker }
advance (ask now) s = record s { breaker = (should_allow_request now s.breaker).0 }

unfoldable pub advance_all : List Event → System → System
unfolding advance
advance_all [] s = s
advance_all (e ∷ es) s = advance_all es (advance e s)

abbrev pub initial : ℕ → ℕ → System
initial threshold timeout = record { breaker = new_breaker threshold timeout; pending = 0 }

-- Calls that nothing overlaps are these steps.
pub record_success_lem :
    (b : CircuitBreaker)
    → record_success b
      ≡ (advance_all (clear ∷ finish ∷ []) (record { breaker = b; pending = 0 })).breaker
unfolding record_success advance_all advance
record_success_lem b = refl

pub record_failure_lem :
    (now : ℕ) (b : CircuitBreaker)
    → record_failure now b
      ≡ (advance_all (store now ∷ count now ∷ []) (record { breaker = b; pending = 0 })).breaker
unfolding record_failure advance_all advance
record_failure_lem now b = refl

-- A step opens the closed circuit only while no call of `record_success` is half done.
abbrev IsClear : Event → System → Type 0
IsClear e s = s.breaker.state ≡ closed → (advance e s).breaker.state ≡ open_ → s.pending ≡ 0

abbrev pub OpensClear : List Event → System → Type 0
OpensClear [] s = Unit
OpensClear (e ∷ es) s = IsClear e s × OpensClear es (advance e s)

-- While the circuit is closed, or a call has cleared the count and may close it, the count is below the
-- threshold.
record IsSound (threshold : ℕ) (s : System) : Type 0 where
  same : s.breaker.failure_threshold ≡ threshold
  below : (s.breaker.state ≡ closed) ⊎ (0 < s.pending) → s.breaker.failures < threshold

advance-IsSound :
    (threshold : ℕ) (e : Event) (s : System)
    → 0 < threshold
    → threshold < u64_mod
    → IsClear e s
    → IsSound threshold s
    → IsSound threshold (advance e s)
unfolding advance count_failure should_allow_request
advance-IsSound threshold clear s p w o h = record { same = h.same; below = λ c. p }
advance-IsSound threshold finish s p w o h = record {
  same = ground (arith, h.same);
  below = λ c. ground (arith, h.below, c);
}
advance-IsSound threshold (store now) s p w o h = record { same = h.same; below = h.below }
advance-IsSound threshold (count now) s p w o h = record {
  same = ground (arith, h.same);
  below = λ c. ground (arith, h.below, h.same, o, c);
}
advance-IsSound threshold (ask now) s p w o h = record {
  same = ground (arith, h.same);
  below = λ c. ground (arith, h.below, c);
}

advance_all-IsSound :
    (threshold : ℕ) (es : List Event) (s : System)
    → 0 < threshold
    → threshold < u64_mod
    → OpensClear es s
    → IsSound threshold s
    → IsSound threshold (advance_all es s)
unfolding advance_all
advance_all-IsSound threshold [] s p w o h = h
advance_all-IsSound threshold (e ∷ es) s p w o h =
    advance_all-IsSound threshold es (advance e s) p w o.1 (advance-IsSound threshold e s p w o.0 h)

-- Whatever steps of whatever calls are made on a new breaker with a positive threshold, one after the
-- other in any interleaving, and whatever the clock shows: if the circuit never opens while a
-- `record_success` is half done, then whenever it is closed fewer failures are counted than the threshold.
pub advance_all-below :
    (threshold timeout : ℕ) (events : List Event)
    → 0 < threshold
    → threshold < u64_mod
    → OpensClear events (initial threshold timeout)
    → (advance_all events (initial threshold timeout)).breaker.state ≡ closed
    → (advance_all events (initial threshold timeout)).breaker.failures < threshold
advance_all-below threshold timeout events p w o c =
    (advance_all-IsSound threshold events (initial threshold timeout) p w o
        (record { same = refl; below = λ d. p })).below
      (inl c)

-- Without that the bound fails: a call clears the count, another one fails and opens the circuit, the
-- timeout runs out, and the first call closes the circuit with the failure still counted. Here the
-- threshold is 1.
pub closes_at_threshold :
    (timeout t later : ℕ)
    → t + timeout < later
    → later < u64_mod
    → let s =
        advance_all (clear ∷ store t ∷ count t ∷ ask later ∷ finish ∷ []) (initial 1 timeout) in
      (s.breaker.state ≡ closed) × (s.breaker.failures ≡ 1)
unfolding advance_all advance count_failure should_allow_request
closes_at_threshold timeout t later h w = ground (arith, h, w)
