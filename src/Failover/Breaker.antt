-- ===== src/Failover/Breaker.antt =====
-- The circuit breaker of src/plugin_manager/failover.rs under calls that do not overlap: its transitions
-- and when it opens.
use skylet.Prelude.{
  ℕ, ◌+◌, ◌<◌, ◌≡◌, refl, Bool, true, false, List, [], ◌∷◌, arith, leb, suc, map, ◌++◌, Bool-cases,
  inl, inr, if◌then◌else◌, u64_mod,
}
use Prim.Native.Nat.add
use skylet.Prelude.Lists.{length}
use skylet.Failover.{
  CircuitState, closed, open_, half_open, CircuitBreaker, new_breaker, elapsed, record_success,
  record_failure, should_allow_request,
}

-- The operations that a caller can make.
pub data Action : Type 0 where
  succeed : Action
  fail ask : ℕ → Action

unfoldable pub apply : CircuitBreaker → Action → CircuitBreaker
unfolding record_success record_failure should_allow_request
apply b succeed = record_success b
apply b (fail now) = record_failure now b
apply b (ask now) = (should_allow_request now b).0

unfoldable pub run : CircuitBreaker → List Action → CircuitBreaker
unfolding apply
run b [] = b
run b (a ∷ actions) = run (apply b a) actions

-- The transitions of the state machine.
pub data Edge : CircuitState → CircuitState → Type 0 where
  trip : Edge closed open_
  probe : Edge open_ half_open
  recover : Edge half_open closed
  relapse : Edge half_open open_
  stay : (s : CircuitState) → Edge s s

Edge-if : {s t u : CircuitState} (c : Bool) → Edge s t → Edge s u → Edge s (if c then t else u)
Edge-if true p q = p
Edge-if false p q = q

-- The state after each operation, from the state before it alone.
after : CircuitBreaker → Action → CircuitState → CircuitState
unfolding apply
after b a s = (apply (record b { state = s }) a).state

after-Edge : (b : CircuitBreaker) (a : Action) (s : CircuitState) → Edge s (after b a s)
unfolding after
after-Edge b succeed closed = stay closed
after-Edge b succeed open_ = stay open_
after-Edge b succeed half_open = recover
after-Edge b (fail now) closed = Edge-if _ trip (stay closed)
after-Edge b (fail now) open_ = Edge-if _ probe (stay open_)
after-Edge b (fail now) half_open = relapse
after-Edge b (ask now) closed = stay closed
after-Edge b (ask now) open_ =
    elim (Bool-cases (leb b.timeout_seconds (elapsed now b.last_failure))) [
      | inl e ↦ rw (e, after) probe
      | inr e ↦ rw (e, after) (stay open_)
    ]
after-Edge b (ask now) half_open = stay half_open

-- Every operation keeps the state or makes one of the four transitions: closed to open, open to
-- half-open, half-open to closed, half-open to open.
pub apply-Edge : (b : CircuitBreaker) (a : Action) → Edge b.state (apply b a).state
unfolding after
apply-Edge b a = after-Edge b a b.state

run-append : (xs ys : List Action) (b : CircuitBreaker) → run b (xs ++ ys) ≡ run (run b xs) ys
unfolding run
run-append [] ys b = refl
run-append (a ∷ xs) ys b = run-append xs ys (apply b a)

-- A closed breaker and the room that is left before its threshold.
record HasRoom (n : ℕ) (b : CircuitBreaker) : Type 0 where
  is_closed : b.state ≡ closed
  word : b.failure_threshold < u64_mod
  room : b.failures + n ≡ b.failure_threshold

fail-HasRoom :
    (n t : ℕ) (b : CircuitBreaker) → 0 < n → HasRoom (suc n) b → HasRoom n (record_failure t b)
unfolding record_failure
fail-HasRoom n t b p h = record {
  is_closed = ground arith;
  word = ground arith;
  room = ground arith;
}

fails-HasRoom :
    (n : ℕ) (ts : List ℕ) (b : CircuitBreaker)
    → HasRoom (length ts + suc n) b
    → HasRoom (suc n) (run b (map fail ts))
unfolding run apply
fails-HasRoom n [] b h = rw add.zero at h
fails-HasRoom n (t ∷ ts) b h =
    fails-HasRoom n ts (record_failure t b)
      (fail-HasRoom (length ts + suc n) t b (omega arith) (rw add.suc at h))

last_failure_opens : (t : ℕ) (b : CircuitBreaker) → HasRoom 1 b → (record_failure t b).state ≡ open_
unfolding record_failure
last_failure_opens t b h = ground arith

-- A new breaker stays closed through fewer failures in a row than its threshold, and the failure
-- that makes their number the threshold opens it, at whatever times they happen.
pub opens_at_threshold :
    (timeout t : ℕ) (ts : List ℕ)
    → suc (length ts) < u64_mod
    → ((run (new_breaker (suc (length ts)) timeout) (map fail ts)).state ≡ closed)
      × ((run (new_breaker (suc (length ts)) timeout) (map fail ts ++ fail t ∷ [])).state ≡ open_)
unfolding run apply
opens_at_threshold timeout t ts w =
    let fresh = new_breaker (suc (length ts)) timeout in
    let h : HasRoom 1 (run fresh (map fail ts)) =
      fails-HasRoom 0 ts fresh (record { is_closed = refl; word = w; room = omega arith }) in
    (h.is_closed, rw run-append (last_failure_opens t (run fresh (map fail ts)) h))
