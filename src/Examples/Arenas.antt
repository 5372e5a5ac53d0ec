-- ===== src/Examples/Arenas.antt =====
-- The arena of a plugin (src/memory/arena.rs) at sample values.
use skylet.Prelude.{◌≤◌, ◌≡◌, refl, some, [], ◌∷◌, arith}
use skylet.Memory.{PluginArena, new_arena, has_room, alloc, dealloc, reset}
use skylet.Memory.Accounts
use skylet.Memory.Balance.{IsBalanced, reach-IsBalanced}
use skylet.Memory.Races
use skylet.Memory.Races.{System, idle, checked, reach-bound}
use skylet.Memory.Overshoot.{reach-overshoot}

-- 900 bytes of 1000, in two pieces.
abbrev filled_arena : PluginArena
filled_arena = (alloc 300 (some 8) (alloc 600 (some 4096) (new_arena 1000)).0).0

-- The pieces are allocated, the arena is reset, 50 bytes are allocated, and the first piece is freed.
abbrev accounts : Accounts.System
accounts = record {
  arena = dealloc 4096 600 (alloc 50 (some 20) (reset filled_arena)).0;
  held = (20, 50) ∷ [];
  lost = (8, 300) ∷ [];
  forgotten = 900;
}

accounts_reach : Accounts.Reach 1000 accounts
unfolding alloc has_room reset
accounts_reach =
    Accounts.later
      (Accounts.later
        (Accounts.later
          (Accounts.later
            (Accounts.later Accounts.start
              (Accounts.allocate 600 (some 4096) (ground arith) (λ p e. (refl, refl))))
            (Accounts.allocate 300 (some 8) (ground arith)
              (λ p e. (ground (arith, e), ground (arith, e)))))
          Accounts.start_over)
        (Accounts.allocate 50 (some 20) (ground arith)
          (λ p e. (ground (arith, e), ground (arith, e)))))
      (Accounts.free_lost 4096 600 (ground arith) refl refl)

reach-IsBalanced_example : IsBalanced 1000 accounts
reach-IsBalanced_example = reach-IsBalanced 1000 accounts (ground arith) accounts_reach

-- One of two threads found room for 600 bytes.
abbrev looking : System
looking = record { arena = new_arena 1000; threads = checked 600 ∷ idle ∷ [] }

looking_reach : Races.Reach 600 1000 2 looking
unfolding has_room
looking_reach = Races.later Races.start (Races.check [] (idle ∷ []) 600 refl (ground arith) refl)

reach-bound_example : looking.arena.used ≤ 1600
reach-bound_example = reach-bound 600 1000 1 looking (ground arith) looking_reach

reach-overshoot_example : (s : System) × Races.Reach 600 1000 2 s × (s.arena.used ≡ 1200)
reach-overshoot_example =
    reach-overshoot 600 1000 2 600 (ground arith) (ground arith) (ground arith)
