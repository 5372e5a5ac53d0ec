-- ===== src/Failover/Recovery.antt =====
-- Admission and recovery in src/plugin_manager/failover.rs: `should_allow_request` and the breaker's
-- part of `call_with_failover`.
use skylet.Prelude.{
  ℕ, ◌+◌, ◌<◌, ◌≤◌, ◌≡◌, ◌≢◌, ◌↔◌, refl, true, false, inl, inr, Option-cases, Option, none, List,
  [], ◌∷◌, arith, u64_mod,
}
use skylet.Failover.{
  closed, open_, half_open, CircuitBreaker, should_allow_request, FallbackService, call_breaker,
  ServiceResponse, fallback_or, primary_call, response_error, call_with_failover, FailoverStrategy,
}
use skylet.Prelude.Lists.{All}
use skylet.Prelude.Texts.{Text, codes, text_eq_iff}
use skylet.Prelude.Dict
use skylet.Prelude.Dict.{lookup-insert}

-- A request is refused exactly while the breaker is open and its timeout has not run out since the
-- last failure, at a clock that has not been set back.
pub should_allow_request_iff :
    (now : ℕ) (b : CircuitBreaker)
    → b.last_failure ≤ now
    → now < u64_mod
    → ((should_allow_request now b).1 ≡ false)
      ↔ ((b.state ≡ open_) × (now < b.last_failure + b.timeout_seconds))
unfolding should_allow_request
should_allow_request_iff now b p w = ground arith

-- The calls that come in for one service, each with the clock readings of its admission test and of
-- its failure record, and the responses that they get.
pub calls :
    Option FallbackService → List (ℕ × ℕ) → CircuitBreaker → CircuitBreaker × List ServiceResponse
calls fallback [] b = (b, [])
calls fallback ((now, later) ∷ ts) b =
    let (b', response) = call_breaker now later fallback b in
    let (b'', responses) = calls fallback ts b' in (b'', response ∷ responses)

-- The clock moves on, and each call comes before the timeout since the last failure has run out.
abbrev pub Frequent : ℕ → ℕ → List (ℕ × ℕ) → Type 0
Frequent timeout last [] = Unit
Frequent timeout last ((now, later) ∷ ts) =
    (last ≤ now)
    × (now < last + timeout)
    × (now ≤ later)
    × (later < u64_mod)
    × Frequent timeout later ts

-- The response without the primary service: the fallback's, or status 503.
abbrev pub refusal : Option FallbackService → ServiceResponse
refusal = fallback_or (response_error 503 (codes "Service unavailable - circuit open"))

refused :
    (now later : ℕ) (fallback : Option FallbackService) (b : CircuitBreaker)
    → b.state ≡ open_
    → b.last_failure ≤ now
    → now < b.last_failure + b.timeout_seconds
    → now ≤ later
    → later < u64_mod
    → call_breaker now later fallback b
      ≡ (record b { last_failure = later; state = open_ }, refusal fallback)
unfolding call_breaker
refused now later fallback b o p q r w = ground arith

abbrev pub AllRefused : Option FallbackService → List ServiceResponse → Type 0
AllRefused fallback = All (λ r. r ≡ refusal fallback)

-- Refused calls count as failures: an open circuit that is called again before each timeout has run
-- out stays open for ever, and the primary service answers none of the calls.
pub calls-stay_open :
    (fallback : Option FallbackService) (ts : List (ℕ × ℕ)) (b : CircuitBreaker)
    → b.state ≡ open_
    → Frequent b.timeout_seconds b.last_failure ts
    → ((calls fallback ts b).0.state ≡ open_) × AllRefused fallback (calls fallback ts b).1
unfolding calls
calls-stay_open fallback [] b o f = (o, tt)
calls-stay_open fallback ((now, later) ∷ ts) b o f =
    let b' = record b { last_failure = later; state = open_ } in
    let rest = calls-stay_open fallback ts b' refl f.4 in
    rw (refused now later fallback b o f.0 f.1 f.2 f.3) (rest.0, (refl, rest.1))

-- A call when the timeout has run out since the last failure reaches the primary service, and its
-- success closes the circuit and clears the count.
pub call_breaker-recovers :
    (now later : ℕ) (fallback : Option FallbackService) (b : CircuitBreaker)
    → b.state ≡ open_
    → b.last_failure + b.timeout_seconds ≤ now
    → now < u64_mod
    → call_breaker now later fallback b ≡ (record b { failures = 0; state = closed }, primary_call)
unfolding call_breaker
call_breaker-recovers now later fallback b o p w = ground arith

-- While the breaker is half-open every request is allowed, not one alone: the test leaves the
-- breaker as it is, and only a recorded result ends the half-open state.
pub half_open_allows :
    (ts : List ℕ) (b : CircuitBreaker)
    → b.state ≡ half_open
    → All (λ t. should_allow_request t b ≡ (b, true)) ts
unfolding should_allow_request
half_open_allows [] b h = tt
half_open_allows (t ∷ ts) b h = (ground arith, half_open_allows ts b h)

status :
    (now later : ℕ) (fallback : Option FallbackService) (b : CircuitBreaker)
    → (call_breaker now later fallback b).1.status_code ≢ 404
unfolding call_breaker
status now later fallback b = ground arith

-- A call for one service leaves the breakers of the others and the queue alone, and its status is
-- 404 exactly when the service is not registered.
pub call_with_failover_frame :
    (now later : ℕ) (name other : Text) (s : FailoverStrategy)
    → name ≢ other
    → ((call_with_failover now later name s).0.request_queue ≡ s.request_queue)
      × (Dict.lookup other (call_with_failover now later name s).0.circuit_breakers
          ≡ Dict.lookup other s.circuit_breakers)
      × (((call_with_failover now later name s).1.status_code ≡ 404)
          ↔ (Dict.lookup name s.circuit_breakers ≡ none))
call_with_failover_frame now later name other s ne =
    elim (Option-cases (Dict.lookup name s.circuit_breakers)) [
      | inl e ↦ unfold call_with_failover in ground arith
      | inr (b, e) ↦
          let after = (call_breaker now later (Dict.lookup name s.fallback_services) b).0 in
          unfold call_with_failover in
          ground (
            arith,
            lookup-insert name other after s.circuit_breakers,
            text_eq_iff name other,
            status now later (Dict.lookup name s.fallback_services) b,
          )
    ]
