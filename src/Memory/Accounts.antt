-- ===== src/Memory/Accounts.antt =====
-- What is allocated in an arena (src/memory/arena.rs), and the calls that change it when they do not overlap.
use skylet.Prelude.{
  ℕ, ◌+◌, ◌<◌, ◌≡◌, refl, Option, none, some, List, [], ◌∷◌, err, arith, ok, Result, ◌++◌,
}
use skylet.Memory.{
  PluginArena, AllocError, size_of, set_size, drop_size, new_arena, alloc, dealloc, reset,
}

-- The bytes behind the pointers.
abbrev pub live : List (ℕ × ℕ) → ℕ
live [] = 0
live ((p, size) ∷ m) = size + live m

pub live-set_size :
    (p size : ℕ) (m : List (ℕ × ℕ)) → size_of p m ≡ none → live (set_size p size m) ≡ live m + size
live-set_size p size [] h = omega arith
live-set_size p size ((q, s) ∷ m) h = ground (arith, h, live-set_size p size m)

pub live-drop_size :
    (p size : ℕ) (m : List (ℕ × ℕ)) → size_of p m ≡ some size → live (drop_size p m) + size ≡ live m
live-drop_size p size [] h = ground (arith, h)
live-drop_size p size ((q, s) ∷ m) h = ground (arith, h, live-drop_size p size m)

pub drop_size-absent : (p : ℕ) (m : List (ℕ × ℕ)) → size_of p m ≡ none → drop_size p m ≡ m
drop_size-absent p [] h = refl
drop_size-absent p ((q, s) ∷ m) h = ground (arith, h, drop_size-absent p m)

-- An arena; the allocations that were made since the last reset and are not freed; those of before it that
-- are not freed, since `reset` frees nothing; and how many bytes these were at the reset.
pub record System : Type 0 where
  pub arena : PluginArena
  pub held : List (ℕ × ℕ)
  pub lost : List (ℕ × ℕ)
  pub forgotten : ℕ

abbrev pub hold : ℕ → Result ℕ AllocError → List (ℕ × ℕ) → List (ℕ × ℕ)
hold size (ok p) held = set_size p size held
hold size (err e) held = held

-- One call: allocate, where the system returns no pointer that is in use; free what was allocated since
-- the last reset or before it, with its size; or start over.
pub data Step (s : System) : System → Type 0 where
  allocate :
      (size : ℕ) (ptr : Option ℕ)
      → size < 9223372036854775808
      → ((p : ℕ) → ptr ≡ some p → (size_of p s.held ≡ none) × (size_of p s.lost ≡ none))
      → Step s (record s {
        arena = (alloc size ptr s.arena).0;
        held = hold size (alloc size ptr s.arena).1 s.held;
      })
  free :
      (p size : ℕ)
      → size < 9223372036854775808
      → size_of p s.held ≡ some size
      → Step s (record s { arena = dealloc p size s.arena; held = drop_size p s.held })
  free_lost :
      (p size : ℕ)
      → size < 9223372036854775808
      → size_of p s.held ≡ none
      → size_of p s.lost ≡ some size
      → Step s (record s { arena = dealloc p size s.arena; lost = drop_size p s.lost })
  start_over : Step s (record {
    arena = reset s.arena;
    held = [];
    lost = s.held ++ s.lost;
    forgotten = live (s.held ++ s.lost);
  })

abbrev pub initial : ℕ → System
initial capacity = record { arena = new_arena capacity; held = []; lost = []; forgotten = 0 }

pub data Reach (capacity : ℕ) : System → Type 0 where
  start : Reach capacity (initial capacity)
  later : {s t : System} → Reach capacity s → Step s t → Reach capacity t
