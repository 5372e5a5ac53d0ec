-- ===== src/Security/Capacity.antt =====
-- `PluginCapacityTracker` of abi/src/security.rs, and the limit and the hosts that it starts with. The
-- environment, the number of cores, the free memory and the lines of the host file are arguments.
use Prim.Native.Nat.{min, max}
use skylet.Prelude.{
  ℕ, zero, suc, ◌+◌, ◌-◌, ◌*◌, ◌/◌, ◌%◌, ◌≤◌, ◌<◌, ◌≡◌, refl, Bool, true, false, not, ◌&&◌, Option,
  none, some, List, [], ◌∷◌, leb, ◌==◌, if◌then◌else◌, Result, ok, err, is_ok, u64_mod, map, arith,
  Bool-cases, inl, inr,
}
use skylet.Prelude.Lists.{length, filter}
use skylet.Prelude.Texts.{Text, codes, split, trim, starts_with}
use skylet.Version.Number.{parse_u64}
use skylet.Security.{SecurityError, plugin_capacity_exceeded, no_remote_host_available}

abbrev pub clamp : ℕ → ℕ → ℕ → ℕ
clamp low high n = max low (min n high)

-- On a machine with words of 64 bits.
unfoldable pub calculated_max : ℕ → ℕ → ℕ
calculated_max num_cpus available_memory =
    clamp 16 4096 (min (num_cpus * 8) (available_memory / 536870912))

unfoldable pub get_max_plugins : Option Text → ℕ → ℕ → ℕ
unfolding calculated_max
get_max_plugins none num_cpus available_memory = calculated_max num_cpus available_memory
get_max_plugins (some v) num_cpus available_memory = elim (parse_u64 v) [
  | some n ↦ n
  | none ↦ calculated_max num_cpus available_memory
]

abbrev is_blank : Text → Bool
is_blank [] = true
is_blank (c ∷ s) = false

abbrev from_env : Option Text → List Text
from_env none = []
from_env (some hosts) = filter (λ h. not (is_blank h)) (map trim (split 44 hosts))

abbrev from_file : List Text → List Text
from_file lines = filter (λ l. not (is_blank l) && not (starts_with (codes "#") l)) (map trim lines)

unfoldable pub load_remote_hosts : Option Text → List Text → List Text
load_remote_hosts hosts_str lines = elim (from_env hosts_str) [
  | [] ↦ from_file lines
  | h ∷ hs ↦ h ∷ hs
]

pub record PluginCapacityTracker : Type 0 where
  pub current_count : ℕ
  pub max_local : ℕ
  pub remote_hosts : List Text

abbrev pub new_tracker : ℕ → List Text → PluginCapacityTracker
new_tracker max_local remote_hosts = record {
  current_count = 0;
  max_local = max_local;
  remote_hosts = remote_hosts;
}

unfoldable pub can_load_locally : PluginCapacityTracker → Result (Unit {0}) SecurityError
can_load_locally t = if leb t.max_local t.current_count then err plugin_capacity_exceeded else ok tt

-- The counter is an atomic word, which wraps around.
unfoldable pub increment : PluginCapacityTracker → PluginCapacityTracker
increment t = record t { current_count = (t.current_count + 1) % u64_mod }

unfoldable pub decrement : PluginCapacityTracker → PluginCapacityTracker
decrement t = record t { current_count = (t.current_count + u64_mod - 1) % u64_mod }

abbrev pub get_elem? : List Text → ℕ → Option Text
get_elem? [] i = none
get_elem? (h ∷ hs) zero = some h
get_elem? (h ∷ hs) (suc i) = get_elem? hs i

-- `none` is the panic of an index out of bounds.
unfoldable pub get_remote_host_for_offload :
    PluginCapacityTracker → Option (Result Text SecurityError)
get_remote_host_for_offload t =
    if length t.remote_hosts == 0
    then some (err no_remote_host_available)
    else elim (get_elem? t.remote_hosts (t.current_count % length t.remote_hosts)) [
      | none ↦ none
      | some host ↦ some (ok host)
    ]

-- A load and an unload, where a load is made only if it can be.
pub data CapacityStep : Type 0 where
  load_step unload_step : CapacityStep

-- Unloading is called for loaded plugins alone.
unfoldable pub capacity_step : CapacityStep → PluginCapacityTracker → PluginCapacityTracker
unfolding can_load_locally increment decrement
capacity_step load_step t = if is_ok (can_load_locally t) then increment t else t
capacity_step unload_step t = if t.current_count == 0 then t else decrement t

unfoldable pub capacity_steps : List CapacityStep → PluginCapacityTracker → PluginCapacityTracker
unfolding capacity_step
capacity_steps [] t = t
capacity_steps (s ∷ ss) t = capacity_steps ss (capacity_step s t)

capacity_step-bound :
    (s : CapacityStep) (t : PluginCapacityTracker)
    → t.max_local < u64_mod
    → t.current_count ≤ t.max_local
    → ((capacity_step s t).current_count ≤ t.max_local)
      × ((capacity_step s t).max_local ≡ t.max_local)
unfolding capacity_step
capacity_step-bound load_step t h k = ground arith
capacity_step-bound unload_step t h k = ground arith

-- Where each load asks for room first, and each unload follows a load, the count of plugins never
-- exceeds the local maximum.
pub capacity_steps-bound :
    (ss : List CapacityStep) (t : PluginCapacityTracker)
    → t.max_local < u64_mod
    → t.current_count ≤ t.max_local
    → (capacity_steps ss t).current_count ≤ t.max_local
unfolding capacity_steps
capacity_steps-bound [] t h k = k
capacity_steps-bound (s ∷ ss) t h k =
    let one = capacity_step-bound s t h k in
    omega (
      arith,
      one,
      capacity_steps-bound ss (capacity_step s t) (omega (arith, one)) (omega (arith, one)),
    )

get_elem?-lt : (l : List Text) (i : ℕ) → i < length l → (h : Text) × (get_elem? l i ≡ some h)
get_elem?-lt [] i h = absurd (omega arith)
get_elem?-lt (x ∷ l) zero h = (x, refl)
get_elem?-lt (x ∷ l) (suc i) h = get_elem?-lt l i (omega arith)

-- Asking for a host never panics, and finds one exactly when there are any.
pub get_remote_host_for_offload-returns :
    (t : PluginCapacityTracker)
    → (r : Result Text SecurityError) × (get_remote_host_for_offload t ≡ some r)
      × (is_ok r ≡ not (length t.remote_hosts == 0))
unfolding get_remote_host_for_offload
get_remote_host_for_offload-returns t = elim (Bool-cases (length t.remote_hosts == 0)) [
  | inl empty ↦ (err no_remote_host_available, rw empty refl, rw empty refl)
  | inr some_hosts ↦
      let i = t.current_count % length t.remote_hosts in
      let (host, found) = get_elem?-lt t.remote_hosts i (mod_lt _ _ (ground (arith, some_hosts))) in
      (ok host, rw some_hosts (rw found refl), rw some_hosts refl)
]
  where
    mod_lt : (a m : ℕ) → 0 < m → a % m < m
    mod_lt a m h = omega arith
