-- ===== src/Memory/Races.antt =====
-- Several threads over one arena (src/memory/arena.rs): `alloc` reads the counter and adds to it in two
-- steps, between which other threads may do theirs.
use skylet.Prelude.{
  ℕ, zero, suc, ◌+◌, ◌*◌, ◌≤◌, ◌<◌, ◌≡◌, refl, sym, ap, ◌∙◌, true, List, [], ◌∷◌, ◌++◌, u64_mod,
  arith,
}
use mathlib.Core.Path.{subst}
use skylet.Prelude.Lists.{length, length-append}
use skylet.Memory.{PluginArena, new_arena, has_room, commit, dealloc}

-- What a thread is about to do: nothing, or to add a size that it found room for.
pub data Phase : Type 0 where
  idle : Phase
  checked : ℕ → Phase

pub record System : Type 0 where
  pub arena : PluginArena
  pub threads : List Phase

-- One step of one thread: the one between `before` and `behind`, which gives up where the system returns
-- null. No request is above `m` bytes.
pub data Step (m : ℕ) (s : System) : System → Type 0 where
  check :
      (before behind : List Phase) (size : ℕ)
      → s.threads ≡ before ++ idle ∷ behind
      → size ≤ m
      → has_room size s.arena ≡ true
      → Step m s (record { arena = s.arena; threads = before ++ checked size ∷ behind })
  add :
      (before behind : List Phase) (size ptr : ℕ)
      → s.threads ≡ before ++ checked size ∷ behind
      → Step m s (record { arena = commit size ptr s.arena; threads = before ++ idle ∷ behind })
  give_up :
      (before behind : List Phase) (size : ℕ)
      → s.threads ≡ before ++ checked size ∷ behind
      → Step m s (record { arena = s.arena; threads = before ++ idle ∷ behind })
  free :
      (ptr size : ℕ)
      → size ≤ s.arena.used
      → Step m s (record { arena = dealloc ptr size s.arena; threads = s.threads })

abbrev pub idlers : ℕ → List Phase
idlers zero = []
idlers (suc n) = idle ∷ idlers n

abbrev pub initial : ℕ → ℕ → System
initial capacity n = record { arena = new_arena capacity; threads = idlers n }

pub data Reach (m capacity n : ℕ) : System → Type 0 where
  start : Reach m capacity n (initial capacity n)
  later : {s t : System} → Reach m capacity n s → Step m s t → Reach m capacity n t

-- The bytes that threads found room for and have not added yet, and how many threads these are.
abbrev pending : List Phase → ℕ
pending [] = 0
pending (idle ∷ ts) = pending ts
pending (checked size ∷ ts) = size + pending ts

-- Every waiting thread waits with a size of `m` at most.
abbrev AllSmall : ℕ → List Phase → Type 0
AllSmall m [] = Unit
AllSmall m (idle ∷ ts) = AllSmall m ts
AllSmall m (checked size ∷ ts) = (size ≤ m) × AllSmall m ts

pub times_suc : (m k : ℕ) → m * suc k ≡ m + m * k
times_suc m k = grind arith

AllSmall-pending : (m : ℕ) (ts : List Phase) → AllSmall m ts → pending ts ≤ m * length ts
AllSmall-pending m [] h = omega arith
AllSmall-pending m (idle ∷ ts) h = omega (arith, AllSmall-pending m ts h, times_suc m (length ts))
AllSmall-pending m (checked size ∷ ts) h =
    omega (arith, h.0, AllSmall-pending m ts h.1, times_suc m (length ts))

-- One thread changes its phase.
AllSmall-replace :
    (m : ℕ) (before behind : List Phase) (p q : Phase)
    → AllSmall m (before ++ p ∷ behind)
    → (AllSmall m (p ∷ behind) → AllSmall m (q ∷ behind))
    → AllSmall m (before ++ q ∷ behind)
AllSmall-replace m [] behind p q h f = f h
AllSmall-replace m (idle ∷ before) behind p q h f = AllSmall-replace m before behind p q h f
AllSmall-replace m (checked size ∷ before) behind p q h f =
    (h.0, AllSmall-replace m before behind p q h.1 f)

length-replace :
    (before behind : List Phase) (p q : Phase)
    → length (before ++ p ∷ behind) ≡ length (before ++ q ∷ behind)
length-replace [] behind p q = refl
length-replace (x ∷ before) behind p q = ap suc (length-replace before behind p q)

pending-checked :
    (before behind : List Phase) (size : ℕ)
    → pending (before ++ checked size ∷ behind) ≡ size + pending (before ++ idle ∷ behind)
pending-checked [] behind size = refl
pending-checked (idle ∷ before) behind size = pending-checked before behind size
pending-checked (checked k ∷ before) behind size = omega (arith, pending-checked before behind size)

-- The threads beside an idle one.
pending-others :
    (m n : ℕ) (before behind : List Phase)
    → AllSmall m (before ++ idle ∷ behind)
    → length (before ++ idle ∷ behind) ≡ suc n
    → pending (before ++ idle ∷ behind) ≤ m * n
pending-others m n [] behind h e =
    subst (λ k. pending behind ≤ m * k) (omega arith) (AllSmall-pending m behind h)
pending-others m zero (p ∷ before) behind h e =
    absurd (omega (arith, length-append before (idle ∷ behind)))
pending-others m (suc n) (idle ∷ before) behind h e =
    omega (arith, pending-others m n before behind h (omega arith), times_suc m n)
pending-others m (suc n) (checked size ∷ before) behind h e =
    omega (arith, h.0, pending-others m n before behind h.1 (omega arith), times_suc m n)

-- The counter is never more above the capacity than by the requests of all threads but one.
record IsBounded (m capacity n : ℕ) (s : System) : Type 0 where
  capacity_kept : s.arena.total_capacity ≡ capacity
  count : length s.threads ≡ suc n
  waiting : AllSmall m s.threads
  bound : s.arena.used + pending s.threads ≤ capacity + m * n

step-IsBounded :
    (m capacity n : ℕ) {s t : System}
    → capacity + m * suc n < u64_mod
    → IsBounded m capacity n s
    → Step m s t
    → IsBounded m capacity n t
unfolding has_room commit dealloc
step-IsBounded m capacity n {s} word b (check before behind size e le room) =
    let small = subst (AllSmall m) e b.waiting in
    let count = sym (ap length e) ∙ b.count in
    let others = pending-others m n before behind small count in
    record {
      capacity_kept = b.capacity_kept;
      count = sym (length-replace before behind idle (checked size)) ∙ count;
      waiting = AllSmall-replace m before behind idle (checked size) small (λ h. (le, h));
      bound = ground (
        arith,
        room,
        b.bound,
        b.capacity_kept,
        le,
        word,
        others,
        times_suc m n,
        pending-checked before behind size,
      );
    }
step-IsBounded m capacity n {s} word b (add before behind size ptr e) =
    let small = subst (AllSmall m) e b.waiting in
    record {
      capacity_kept = b.capacity_kept;
      count = length-replace before behind idle (checked size) ∙ (sym (ap length e) ∙ b.count);
      waiting = AllSmall-replace m before behind (checked size) idle small (λ h. h.1);
      bound = omega (arith, b.bound, ap pending e, pending-checked before behind size);
    }
step-IsBounded m capacity n {s} word b (give_up before behind size e) = record {
  capacity_kept = b.capacity_kept;
  count = length-replace before behind idle (checked size) ∙ (sym (ap length e) ∙ b.count);
  waiting =
      AllSmall-replace m before behind (checked size) idle (subst (AllSmall m) e b.waiting)
        (λ h. h.1);
  bound = omega (arith, b.bound, ap pending e, pending-checked before behind size);
}
step-IsBounded m capacity n {s} word b (free ptr size le) = record {
  capacity_kept = b.capacity_kept;
  count = b.count;
  waiting = b.waiting;
  bound = omega (arith, b.bound, le, word, times_suc m n);
}

idlers-AllSmall : (m n : ℕ) → AllSmall m (idlers n)
idlers-AllSmall m zero = tt
idlers-AllSmall m (suc n) = idlers-AllSmall m n

length-idlers : (n : ℕ) → length (idlers n) ≡ n
length-idlers zero = refl
length-idlers (suc n) = ap suc (length-idlers n)

pending-idlers : (n : ℕ) → pending (idlers n) ≡ 0
pending-idlers zero = refl
pending-idlers (suc n) = pending-idlers n

reach-IsBounded :
    (m capacity n : ℕ) {s : System}
    → capacity + m * suc n < u64_mod
    → Reach m capacity (suc n) s
    → IsBounded m capacity n s
reach-IsBounded m capacity n word start = record {
  capacity_kept = refl;
  count = length-idlers (suc n);
  waiting = idlers-AllSmall m (suc n);
  bound = omega (arith, pending-idlers n);
}
reach-IsBounded m capacity n word (later r s) =
    step-IsBounded m capacity n word (reach-IsBounded m capacity n word r) s

-- However `n + 1` threads that ask for `m` bytes at most interleave, an arena is never used above its
-- capacity by more than `n` such requests, if its capacity and one request of each thread are below
-- 2 ^ 64 together.
pub reach-bound :
    (m capacity n : ℕ) (s : System)
    → capacity + m * suc n < u64_mod
    → Reach m capacity (suc n) s
    → s.arena.used ≤ capacity + m * n
reach-bound m capacity n s word r = omega (arith, (reach-IsBounded m capacity n word r).bound)
