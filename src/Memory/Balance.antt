-- ===== src/Memory/Balance.antt =====
-- The accounts of an arena (src/memory/arena.rs) under calls that do not overlap.
use skylet.Prelude.{
  ℕ, ◌+◌, ◌-◌, ◌≤◌, ◌<◌, ◌≡◌, refl, true, false, Option, none, some, err, u64_mod, arith,
  Bool-cases, inl, inr, sym, ap, ◌∙◌, ◌%◌, ◌⊎◌, zero, suc,
}
use skylet.Memory.{
  PluginArena, wrapping_add, wrapping_sub, out_of_memory, size_of, set_size, drop_size, has_room,
  commit, alloc, dealloc, reset, track_allocation, track_deallocation,
}
use skylet.Memory.Accounts.{
  live, live-set_size, live-drop_size, drop_size-absent, System, hold, Step, allocate, free,
  free_lost, start_over, Reach, start, later,
}

-- The counters say exactly what is held.
pub record IsExact (capacity : ℕ) (s : System) : Type 0 where
  pub used_is_held : s.arena.used ≡ live s.held
  pub within : s.arena.used ≤ capacity
  pub peak_above : s.arena.used ≤ s.arena.tracker.peak_usage
  pub peak_within : s.arena.tracker.peak_usage ≤ capacity

-- The map has what is held; the counters say what is held and what was lost, less what was forgotten, on
-- the machine's words, and exactly what is held unless something was forgotten.
pub record IsBalanced (capacity : ℕ) (s : System) : Type 0 where
  pub capacity_kept : s.arena.total_capacity ≡ capacity
  pub mapped : s.arena.allocations_map ≡ s.held
  pub used_is_held : (s.arena.used + s.forgotten) % u64_mod ≡ (live s.held + live s.lost) % u64_mod
  pub tracked : s.arena.tracker.current_usage ≡ s.arena.used
  pub exact : (0 < s.forgotten) ⊎ IsExact capacity s

-- The same as an invariant of the steps.
record IsSound (capacity : ℕ) (s : System) : Type 0 where
  capacity_kept : s.arena.total_capacity ≡ capacity
  mapped : s.arena.allocations_map ≡ s.held
  left : live s.lost ≤ s.forgotten
  used_is_held : (s.arena.used + s.forgotten) % u64_mod ≡ (live s.held + live s.lost) % u64_mod
  word : s.arena.used < u64_mod
  tracked : s.arena.tracker.current_usage ≡ s.arena.used
  exact : s.forgotten ≡ 0 → s.arena.used ≡ live s.held
  within : s.forgotten ≡ 0 → s.arena.used ≤ capacity
  peak_above : s.forgotten ≡ 0 → s.arena.used ≤ s.arena.tracker.peak_usage
  peak_within : s.forgotten ≡ 0 → s.arena.tracker.peak_usage ≤ capacity

positive : (n : ℕ) → (0 < n) ⊎ (n ≡ 0)
positive zero = inr refl
positive (suc n) = inl (omega arith)

-- The arithmetic of a word that grows or shrinks.
word_add :
    (used forgotten bytes size : ℕ)
    → (used + forgotten) % u64_mod ≡ bytes % u64_mod
    → (wrapping_add used size + forgotten) % u64_mod ≡ (bytes + size) % u64_mod
word_add used forgotten bytes size h = omega arith

word_sub :
    (used forgotten bytes size : ℕ)
    → size < u64_mod
    → (used + forgotten) % u64_mod ≡ (bytes + size) % u64_mod
    → (wrapping_sub used size + forgotten) % u64_mod ≡ bytes % u64_mod
word_sub used forgotten bytes size w h = omega arith

commit-IsSound :
    (c size p : ℕ) (s : System)
    → c < 9223372036854775808
    → size < 9223372036854775808
    → IsSound c s
    → has_room size s.arena ≡ true
    → size_of p s.held ≡ none
    → IsSound c (record s { arena = commit size p s.arena; held = set_size p size s.held })
unfolding has_room commit track_allocation
commit-IsSound c size p s hc hs b room fresh =
    let more = live-set_size p size s.held fresh in
    let below : s.forgotten ≡ 0 → s.arena.used + size ≤ c =
      λ f. ground (arith, room, b.capacity_kept, b.within f) in
    record {
      capacity_kept = b.capacity_kept;
      mapped = ap (set_size p size) b.mapped;
      left = b.left;
      used_is_held = omega (
        arith,
        more,
        word_add s.arena.used s.forgotten (live s.held + live s.lost) size b.used_is_held,
      );
      word = omega arith;
      tracked = ground (arith, b.tracked);
      exact = λ f. omega (arith, more, below f, b.exact f);
      within = λ f. omega (arith, below f);
      peak_above = λ f. ground (arith, below f, b.tracked, b.peak_above f);
      peak_within = λ f. ground (arith, below f, b.tracked, b.peak_within f);
    }

alloc-IsSound :
    (c size : ℕ) (ptr : Option ℕ) (s : System)
    → c < 9223372036854775808
    → size < 9223372036854775808
    → IsSound c s
    → ((p : ℕ) → ptr ≡ some p → size_of p s.held ≡ none)
    → IsSound c (record s {
      arena = (alloc size ptr s.arena).0;
      held = hold size (alloc size ptr s.arena).1 s.held;
    })
unfolding alloc
alloc-IsSound c size none s hc hs b fresh = elim (Bool-cases (has_room size s.arena)) [
  | inr full ↦ rw full b
  | inl room ↦ rw room b
]
alloc-IsSound c size (some p) s hc hs b fresh = elim (Bool-cases (has_room size s.arena)) [
  | inr full ↦ rw full b
  | inl room ↦ rw room (commit-IsSound c size p s hc hs b room (fresh p refl))
]

dealloc-IsSound :
    (c p size : ℕ) (s : System)
    → c < 9223372036854775808
    → size < 9223372036854775808
    → IsSound c s
    → size_of p s.held ≡ some size
    → IsSound c (record s { arena = dealloc p size s.arena; held = drop_size p s.held })
unfolding dealloc track_deallocation
dealloc-IsSound c p size s hc hs b h =
    let less = live-drop_size p size s.held h in
    let rest = live (drop_size p s.held) + live s.lost in
    let total : live s.held + live s.lost ≡ rest + size = omega (arith, less) in
    let before : (s.arena.used + s.forgotten) % u64_mod ≡ (rest + size) % u64_mod =
      rw (sym total) b.used_is_held in
    record {
      capacity_kept = b.capacity_kept;
      mapped = ap (drop_size p) b.mapped;
      left = b.left;
      used_is_held = word_sub s.arena.used s.forgotten rest size (omega (arith, hs)) before;
      word = omega arith;
      tracked = omega (arith, b.tracked);
      exact = λ f. omega (arith, less, b.exact f, b.within f);
      within = λ f. omega (arith, less, b.exact f, b.within f);
      peak_above = λ f. omega (arith, less, b.exact f, b.within f, b.peak_above f, b.tracked);
      peak_within = b.peak_within;
    }

dealloc_lost-IsSound :
    (c p size : ℕ) (s : System)
    → c < 9223372036854775808
    → size < 9223372036854775808
    → IsSound c s
    → size_of p s.held ≡ none
    → size_of p s.lost ≡ some size
    → IsSound c (record s { arena = dealloc p size s.arena; lost = drop_size p s.lost })
unfolding dealloc track_deallocation
dealloc_lost-IsSound c p size s hc hs b absent h =
    let less = live-drop_size p size s.lost h in
    let rest = live s.held + live (drop_size p s.lost) in
    let total : live s.held + live s.lost ≡ rest + size = omega (arith, less) in
    let before : (s.arena.used + s.forgotten) % u64_mod ≡ (rest + size) % u64_mod =
      rw (sym total) b.used_is_held in
    let same : s.forgotten ≡ 0 → wrapping_sub s.arena.used size ≡ s.arena.used =
      λ f. omega (arith, less, b.left, b.word) in
    record {
      capacity_kept = b.capacity_kept;
      mapped = ap (drop_size p) b.mapped ∙ drop_size-absent p s.held absent;
      left = omega (arith, less, b.left);
      used_is_held = word_sub s.arena.used s.forgotten rest size (omega (arith, hs)) before;
      word = omega arith;
      tracked = omega (arith, b.tracked);
      exact = λ f. omega (arith, same f, b.exact f);
      within = λ f. omega (arith, same f, b.within f);
      peak_above = λ f. omega (arith, same f, b.peak_above f);
      peak_within = b.peak_within;
    }

step-IsSound :
    (c : ℕ) {s t : System} → c < 9223372036854775808 → IsSound c s → Step s t → IsSound c t
unfolding reset
step-IsSound c {s} hc b (allocate size ptr hs fresh) =
    alloc-IsSound c size ptr s hc hs b (λ p e. (fresh p e).0)
step-IsSound c {s} hc b (free p size hs h) = dealloc-IsSound c p size s hc hs b h
step-IsSound c {s} hc b (free_lost p size hs absent h) =
    dealloc_lost-IsSound c p size s hc hs b absent h
step-IsSound c {s} hc b start_over = record {
  capacity_kept = b.capacity_kept;
  mapped = refl;
  left = omega arith;
  used_is_held = omega arith;
  word = omega arith;
  tracked = refl;
  exact = λ f. omega (arith, f);
  within = λ f. omega arith;
  peak_above = λ f. omega arith;
  peak_within = λ f. omega arith;
}

reach-IsSound : (c : ℕ) (s : System) → c < 9223372036854775808 → Reach c s → IsSound c s
reach-IsSound c _ hc start = record {
  capacity_kept = refl;
  mapped = refl;
  left = omega arith;
  used_is_held = refl;
  word = omega arith;
  tracked = refl;
  exact = λ f. refl;
  within = λ f. omega arith;
  peak_above = λ f. omega arith;
  peak_within = λ f. omega arith;
}
reach-IsSound c _ hc (later {s} {t} r k) = step-IsSound c hc (reach-IsSound c s hc r) k

-- However calls that do not overlap allocate, free and start over, in an arena of less than 2 ^ 63 bytes:
-- its map has what was allocated since the last reset and is not freed; the used bytes, with the bytes that
-- were in use at that reset, are the bytes in use, on words of 64 bits; and the tracker's usage is the used
-- bytes. If no bytes were in use at that reset, or there was none, the used bytes are exactly those that the
-- map has, are never above the capacity, and the tracker's peak lies between the two.
pub reach-IsBalanced : (c : ℕ) (s : System) → c < 9223372036854775808 → Reach c s → IsBalanced c s
reach-IsBalanced c s hc r =
    let h = reach-IsSound c s hc r in
    record {
      capacity_kept = h.capacity_kept;
      mapped = h.mapped;
      used_is_held = h.used_is_held;
      tracked = h.tracked;
      exact = elim (positive s.forgotten) [
        | inl p ↦ inl p
        | inr z ↦ inr record {
          used_is_held = h.exact z;
          within = h.within z;
          peak_above = h.peak_above z;
          peak_within = h.peak_within z;
        }
      ];
    }

-- After a reset, freeing what was allocated before it makes the counter fall below zero: it wraps
-- around, and every smaller allocation is refused from then on.
pub dealloc-reset :
    (p size next : ℕ) (ptr : Option ℕ) (a : PluginArena)
    → 0 < size
    → size < 9223372036854775808
    → next < size
    → a.total_capacity < 9223372036854775808
    → ((dealloc p size (reset a)).used ≡ u64_mod - size)
      × (alloc next ptr (dealloc p size (reset a)) ≡ (dealloc p size (reset a), err out_of_memory))
unfolding dealloc reset alloc has_room
dealloc-reset p size next ptr a h hs hn hc =
    let after : PluginArena = dealloc p size (reset a) in
    let wrapped : after.used ≡ u64_mod - size = omega (arith, hs) in
    let full : has_room next after ≡ false = ground (arith, wrapped, hs, hn, hc) in
    (wrapped, rw full refl)
