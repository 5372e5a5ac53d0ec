-- ===== src/Lifecycle/Recovery.antt =====
-- What abi/src/lifecycle.rs does about a failed stage: the recovery action, the rollback, and the
-- delay before the next try.
use Prim.Native.Nat.{min, max}
use skylet.Prelude.{
  ℕ, suc, ◌+◌, ◌-◌, ◌*◌, ◌/◌, ◌%◌, ◌^◌, ◌≤◌, ◌<◌, ◌≡◌, Bool, true, false, not, ◌&&◌, ltb, leb,
  if◌then◌else◌, Result, ok, err, is_ok, arith, u64_mod,
}
use skylet.Prelude.Texts.{codes}
use skylet.Lifecycle.{
  LifecycleStage, LifecycleError, RecoveryAction, RecoveryStrategy, binary_load, symbol_resolution,
  abi_compatibility, initialization, unloading, internal, literal, new_error, retry, skip, rollback,
  abort,
}

unfoldable pub is_stage_optional : LifecycleStage → Bool
is_stage_optional symbol_resolution = true
is_stage_optional abi_compatibility = true
is_stage_optional _ = false

unfoldable pub is_critical_stage : LifecycleStage → Bool
is_critical_stage binary_load = true
is_critical_stage initialization = true
is_critical_stage _ = false

unfoldable pub determine_recovery_action : LifecycleError → RecoveryStrategy → ℕ → RecoveryAction
unfolding is_stage_optional is_critical_stage
determine_recovery_action error strategy retry_count =
    if not error.recoverable
    then abort
    else if leb strategy.max_retries retry_count
    then (if strategy.skip_optional_stages && is_stage_optional error.stage then skip else abort)
    else if strategy.auto_rollback_on_critical
        && (is_critical_stage error.stage && ltb 0 retry_count)
    then rollback
    else strategy.default_recovery_action

unfoldable pub perform_rollback : LifecycleStage → Result (Unit {0}) LifecycleError
perform_rollback unloading =
    err (new_error unloading internal (literal (codes "Cannot rollback from unloading stage")))
perform_rollback _ = ok tt

-- `u64::saturating_mul` and `u64::saturating_add`.
abbrev pub saturating_mul : ℕ → ℕ → ℕ
saturating_mul a b = min (a * b) (u64_mod - 1)

abbrev pub saturating_add : ℕ → ℕ → ℕ
saturating_add a b = min (a + b) (u64_mod - 1)

unfoldable pub exponential : ℕ → ℕ → ℕ
exponential retry_count base_delay_ms = saturating_mul base_delay_ms (2 ^ min retry_count 10)

-- The jitter of the delay: it is a function of the retry count alone.
unfoldable pub jitter_seed : ℕ → ℕ
jitter_seed retry_count = (retry_count * 1103515245 + 12345) % u64_mod

unfoldable pub calculate_backoff_delay : ℕ → ℕ → ℕ
unfolding jitter_seed
calculate_backoff_delay retry_count base_delay_ms =
    let e = exponential retry_count base_delay_ms in
    saturating_add e (jitter_seed retry_count % max (e / 4) 1)

-- When the retries are used up, a stage is skipped or the loading is aborted, whatever the default
-- action is: it is skipped exactly when the error is recoverable, skipping is allowed, and the stage is
-- one of the two optional ones.
pub determine_recovery_action-exhausted :
    (e : LifecycleError) (s : RecoveryStrategy) (n : ℕ)
    → s.max_retries ≤ n
    → determine_recovery_action e s n ≡ (
        if e.recoverable && (s.skip_optional_stages && is_stage_optional e.stage)
        then skip
        else abort)
unfolding determine_recovery_action
determine_recovery_action-exhausted e s n h = ground arith

-- With the default action of a new strategy, a rollback is chosen only behind a retry of a critical
-- stage, and then the rollback succeeds.
pub perform_rollback-of_action :
    (e : LifecycleError) (s : RecoveryStrategy) (n : ℕ)
    → s.default_recovery_action ≡ retry
    → determine_recovery_action e s n ≡ rollback
    → (0 < n) × (n < s.max_retries) × (is_ok (perform_rollback e.stage) ≡ true)
unfolding determine_recovery_action perform_rollback
perform_rollback-of_action e s n d h = ground arith

power : (k : ℕ) → 2 ^ suc k ≡ 2 * 2 ^ k
power k = omega arith

scale : (b p q : ℕ) → q ≡ 2 * p → b * q ≡ 2 * (b * p)
scale b p q h = rw h (grind arith)

mod_lt : (a m : ℕ) → 0 < m → a % m < m
mod_lt a m h = omega arith

jittered : (e seed : ℕ) → (e ≤ e + seed % max (e / 4) 1) × (seed % max (e / 4) 1 ≤ e / 4)
jittered e seed = let m = max (e / 4) 1 in omega (arith, mod_lt seed m (omega arith))

exponential-lt : (n base : ℕ) → exponential n base < u64_mod
unfolding exponential
exponential-lt n base = omega arith

-- The delay is the exponential one, and a quarter of it at most on top.
pub calculate_backoff_delay_bounds :
    (n base : ℕ)
    → (exponential n base ≤ calculate_backoff_delay n base)
      × (calculate_backoff_delay n base ≤ exponential n base + exponential n base / 4)
unfolding calculate_backoff_delay
calculate_backoff_delay_bounds n base =
    omega (arith, jittered (exponential n base) (jitter_seed n), exponential-lt n base)

calculate_backoff_delay-lt : (n base : ℕ) → calculate_backoff_delay n base < u64_mod
unfolding calculate_backoff_delay
calculate_backoff_delay-lt n base = omega arith

exponential-suc :
    (n base : ℕ) → n < 10 → exponential (suc n) base ≡ saturating_mul 2 (exponential n base)
unfolding exponential
exponential-suc n base h =
    let low : min n 10 ≡ n = omega arith in
    let next : min (suc n) 10 ≡ suc n = omega arith in
    rw (low, next) (omega (arith, scale base (2 ^ n) (2 ^ suc n) (power n)))

-- Up to the tenth retry a delay is no shorter than the one before.
pub calculate_backoff_delay-suc :
    (n base : ℕ) → n < 10 → calculate_backoff_delay n base ≤ calculate_backoff_delay (suc n) base
calculate_backoff_delay-suc n base h = omega (
  arith,
  calculate_backoff_delay_bounds n base,
  calculate_backoff_delay_bounds (suc n) base,
  exponential-suc n base h,
  calculate_backoff_delay-lt n base,
)
