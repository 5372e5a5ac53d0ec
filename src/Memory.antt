-- ===== src/Memory.antt =====
-- src/memory/mod.rs, arena.rs and pool.rs: the tracker of memory, the arena of a plugin and the pool of
-- objects. The pointers that the system's allocator returns are arguments, `none` for null; the
-- ratios in floating point are left out.
pub mod Accounts
pub mod Balance
pub mod Races
pub mod Overshoot
pub mod Pool
use skylet.Prelude.{
  ℕ, ◌+◌, ◌-◌, ◌%◌, Bool, true, false, not, Option, none, some, List, [], ◌∷◌, ltb, ◌==◌,
  if◌then◌else◌, Result, ok, err, u64_mod,
}

-- The additions and subtractions of an `AtomicUsize` wrap around.
abbrev pub wrapping_add : ℕ → ℕ → ℕ
wrapping_add a b = (a + b) % u64_mod

abbrev pub wrapping_sub : ℕ → ℕ → ℕ
wrapping_sub a b = (a + (u64_mod - b)) % u64_mod

pub record MemoryTracker : Type 0 where
  pub allocations : ℕ
  pub deallocations : ℕ
  pub peak_usage : ℕ
  pub current_usage : ℕ

abbrev pub new_tracker : MemoryTracker
new_tracker = record { allocations = 0; deallocations = 0; peak_usage = 0; current_usage = 0 }

unfoldable pub track_allocation : ℕ → MemoryTracker → MemoryTracker
track_allocation size t =
    let new_current = wrapping_add t.current_usage size in
    record {
      allocations = wrapping_add t.allocations 1;
      deallocations = t.deallocations;
      peak_usage = if ltb t.peak_usage new_current then new_current else t.peak_usage;
      current_usage = new_current;
    }

unfoldable pub track_deallocation : ℕ → MemoryTracker → MemoryTracker
track_deallocation size t = record t {
  deallocations = wrapping_add t.deallocations 1;
  current_usage = wrapping_sub t.current_usage size;
}

-- `HashMap<usize, usize>`: the sizes behind the pointers.
abbrev pub size_of : ℕ → List (ℕ × ℕ) → Option ℕ
size_of p [] = none
size_of p ((q, size) ∷ m) = if p == q then some size else size_of p m

abbrev pub set_size : ℕ → ℕ → List (ℕ × ℕ) → List (ℕ × ℕ)
set_size p size [] = (p, size) ∷ []
set_size p size ((q, s) ∷ m) = if p == q then (p, size) ∷ m else (q, s) ∷ set_size p size m

abbrev pub drop_size : ℕ → List (ℕ × ℕ) → List (ℕ × ℕ)
drop_size p [] = []
drop_size p ((q, s) ∷ m) = if p == q then m else (q, s) ∷ drop_size p m

pub record PluginArena : Type 0 where
  pub total_capacity : ℕ
  pub used : ℕ
  pub allocations : ℕ
  pub allocations_map : List (ℕ × ℕ)
  pub tracker : MemoryTracker

pub data AllocError : Type 0 where
  out_of_memory invalid_layout : AllocError

abbrev pub new_arena : ℕ → PluginArena
new_arena capacity_bytes = record {
  total_capacity = capacity_bytes;
  used = 0;
  allocations = 0;
  allocations_map = [];
  tracker = new_tracker;
}

abbrev pub default_arena : PluginArena
default_arena = new_arena 1048576

-- The test in front of an allocation, and what follows it: other threads may come in between.
unfoldable pub has_room : ℕ → PluginArena → Bool
has_room size a = not (ltb a.total_capacity (wrapping_add a.used size))

unfoldable pub commit : ℕ → ℕ → PluginArena → PluginArena
unfolding track_allocation
commit size ptr a = record {
  total_capacity = a.total_capacity;
  used = wrapping_add a.used size;
  allocations = wrapping_add a.allocations 1;
  allocations_map = set_size ptr size a.allocations_map;
  tracker = track_allocation size a.tracker;
}

unfoldable pub alloc : ℕ → Option ℕ → PluginArena → PluginArena × Result ℕ AllocError
unfolding has_room commit
alloc size ptr a =
    if not (has_room size a)
    then (a, err out_of_memory)
    else elim ptr [ none ↦ (a, err out_of_memory) | some p ↦ (commit size p a, ok p) ]

unfoldable pub dealloc : ℕ → ℕ → PluginArena → PluginArena
unfolding track_deallocation
dealloc ptr size a = record a {
  used = wrapping_sub a.used size;
  tracker = track_deallocation size a.tracker;
  allocations_map = drop_size ptr a.allocations_map;
}

unfoldable pub available_bytes : PluginArena → ℕ
available_bytes a = a.total_capacity - a.used

unfoldable pub reset : PluginArena → PluginArena
reset a = record {
  total_capacity = a.total_capacity;
  used = 0;
  allocations = 0;
  allocations_map = [];
  tracker = new_tracker;
}

-- `realloc` of the allocator, which moves what is behind a pointer that is not null. The result is
-- null where the new allocation fails, and the old one is kept.
unfoldable pub realloc : Option ℕ → ℕ → ℕ → Option ℕ → PluginArena → PluginArena × Option ℕ
unfolding alloc dealloc
realloc ptr old_size new_size new_ptr a =
    let (a', result) = alloc new_size new_ptr a in
    elim result [
      | err e ↦ (a', none)
      | ok p ↦ elim ptr [ none ↦ (a', some p) | some q ↦ (dealloc q old_size a', some p) ]
    ]
