-- ===== src/Failover.antt =====
-- src/plugin_manager/failover.rs: circuit breakers and failover. A clock reading (seconds since the
-- epoch) is an argument of each operation that reads the clock. Breaker and Recovery are about calls
-- that do not overlap; Overlap takes the steps of the operations apart.
pub mod Breaker
pub mod Overlap
pub mod Recovery
use skylet.Prelude.{
  ℕ, ◌+◌, ◌-◌, ◌%◌, Bool, true, false, Option, none, some, List, [], ◌∷◌, ◌++◌, ltb, leb, ◌==◌,
  if◌then◌else◌, u64_mod,
}
use skylet.Prelude.Lists.{length}
use skylet.Prelude.Texts.{Text, codes}
use skylet.Prelude.Dict
use skylet.Prelude.Dict.{Dict}

pub data CircuitState : Type 0 where
  closed open_ half_open : CircuitState

pub record CircuitBreaker : Type 0 where
  pub failures : ℕ
  pub failure_threshold : ℕ
  pub timeout_seconds : ℕ
  pub last_failure : ℕ
  pub state : CircuitState

abbrev pub new_breaker : ℕ → ℕ → CircuitBreaker
new_breaker failure_threshold timeout_seconds = record {
  failures = 0;
  failure_threshold = failure_threshold;
  timeout_seconds = timeout_seconds;
  last_failure = 0;
  state = closed;
}

-- `now - last_failure` on `u64`: it wraps around if the clock was set back.
abbrev pub elapsed : ℕ → ℕ → ℕ
elapsed now last = (now + u64_mod - last) % u64_mod

-- The two steps of `record_success`, between which other threads may do theirs: the atomic store of
-- the count, and what is done under the lock of the state.
abbrev pub clear_failures : CircuitBreaker → CircuitBreaker
clear_failures b = record b { failures = 0 }

abbrev pub close_recovered : CircuitBreaker → CircuitBreaker
close_recovered b = elim b.state [
  | half_open ↦ record b { state = closed }
  | closed ↦ b
  | open_ ↦ b
]

unfoldable pub record_success : CircuitBreaker → CircuitBreaker
record_success b = close_recovered (clear_failures b)

-- The two steps of `record_failure`: the time is stored under its own lock, and then the failure is
-- counted under the lock of the state, at the reading that was stored.
abbrev pub store_last_failure : ℕ → CircuitBreaker → CircuitBreaker
store_last_failure now b = record b { last_failure = now }

unfoldable pub count_failure : ℕ → CircuitBreaker → CircuitBreaker
count_failure now b = elim b.state [
  | closed ↦
      let failures = (b.failures + 1) % u64_mod in
      record b {
        failures = failures;
        state = if leb b.failure_threshold failures then open_ else closed;
      }
  | half_open ↦ record b { state = open_ }
  | open_ ↦ record b {
    state = if leb b.timeout_seconds (elapsed now b.last_failure) then half_open else open_;
  }
]

unfoldable pub record_failure : ℕ → CircuitBreaker → CircuitBreaker
unfolding count_failure
record_failure now b = count_failure now (store_last_failure now b)

unfoldable pub should_allow_request : ℕ → CircuitBreaker → CircuitBreaker × Bool
should_allow_request now b = elim b.state [
  | closed ↦ (b, true)
  | open_ ↦
      if leb b.timeout_seconds (elapsed now b.last_failure)
      then (record b { state = half_open }, true)
      else (b, false)
  | half_open ↦ (b, true)
]

pub record ServiceResponse : Type 0 where
  pub success : Bool
  pub data_ : Text
  pub status_code : ℕ
  pub error_message : Option Text

abbrev pub response_ok : Text → ServiceResponse
response_ok text = record { success = true; data_ = text; status_code = 200; error_message = none }

abbrev pub response_error : ℕ → Text → ServiceResponse
response_error status msg = record {
  success = false;
  data_ = [];
  status_code = status;
  error_message = some msg;
}

pub record FallbackService : Type 0 where
  pub name : Text
  pub description : Text
  pub reduced_functionality : List Text

pub record FailoverStrategy : Type 0 where
  pub circuit_breakers : Dict CircuitBreaker
  pub fallback_services : Dict FallbackService
  pub request_queue : List Text

abbrev pub new_strategy : FailoverStrategy
new_strategy = record { circuit_breakers = []; fallback_services = []; request_queue = [] }

unfoldable pub register_service : Text → ℕ → ℕ → FailoverStrategy → FailoverStrategy
register_service name failure_threshold timeout_seconds s = record s {
  circuit_breakers =
      Dict.insert name (new_breaker failure_threshold timeout_seconds) s.circuit_breakers;
}

unfoldable pub register_fallback : FallbackService → FailoverStrategy → FailoverStrategy
register_fallback f s = record s { fallback_services = Dict.insert f.name f s.fallback_services }

-- The response of the fallback service of `name`, or `otherwise`.
abbrev fallback_or : ServiceResponse → Option FallbackService → ServiceResponse
fallback_or otherwise none = otherwise
fallback_or otherwise (some f) = response_ok (codes "Fallback mode")

-- The primary call, which the source fills with a constant response.
abbrev pub primary_call : ServiceResponse
primary_call = response_ok (codes "Success")

-- What a call does to the breaker of the service. The clock is read by the admission test and once
-- more when a rejected request is recorded as a failure.
unfoldable pub call_breaker :
    ℕ → ℕ → Option FallbackService → CircuitBreaker → CircuitBreaker × ServiceResponse
unfolding should_allow_request record_failure record_success
call_breaker now later fallback b =
    let (b', allowed) = should_allow_request now b in
    if allowed
    then (if primary_call.success
        then (record_success b', primary_call)
        else (record_failure later b', fallback_or primary_call fallback))
    else (
      record_failure later b',
      fallback_or (response_error 503 (codes "Service unavailable - circuit open")) fallback,
    )

unfoldable pub call_with_failover :
    ℕ → ℕ → Text → FailoverStrategy → FailoverStrategy × ServiceResponse
unfolding call_breaker
call_with_failover now later name s = elim (Dict.lookup name s.circuit_breakers) [
  | none ↦ (s, response_error 404 (codes "Service " ++ (name ++ codes " not registered")))
  | some b ↦
      let (b', response) = call_breaker now later (Dict.lookup name s.fallback_services) b in
      (record s { circuit_breakers = Dict.insert name b' s.circuit_breakers }, response)
]

unfoldable pub get_service_state : Text → FailoverStrategy → Option CircuitState
get_service_state name s = elim (Dict.lookup name s.circuit_breakers) [
  | none ↦ none
  | some b ↦ some b.state
]

unfoldable pub queue_request : Text → FailoverStrategy → FailoverStrategy
queue_request request s = record s { request_queue = s.request_queue ++ request ∷ [] }

unfoldable pub queued_request_count : FailoverStrategy → ℕ
queued_request_count s = length s.request_queue

unfoldable pub drain_queued_requests : FailoverStrategy → FailoverStrategy × List Text
drain_queued_requests s = (record s { request_queue = [] }, s.request_queue)
