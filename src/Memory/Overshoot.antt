-- ===== src/Memory/Overshoot.antt =====
-- The bound of Races is reached: threads of an arena (src/memory/arena.rs) that all look before any of
-- them adds.
use skylet.Prelude.{
  ℕ, zero, suc, ◌+◌, ◌*◌, ◌≤◌, ◌<◌, ◌≡◌, refl, sym, ap, ◌∙◌, List, [], ◌∷◌, ◌++◌, u64_mod, arith,
}
use mathlib.Core.Path.{subst}
use mathlib.Core.List.{append-nil}
use skylet.Memory.{PluginArena, new_arena, has_room, commit}
use skylet.Memory.Races.{
  Phase, idle, checked, System, check, add, idlers, Reach, start, later, times_suc,
}

abbrev waits : ℕ → ℕ → List Phase
waits size zero = []
waits size (suc k) = checked size ∷ waits size k

waits-shift :
    (size k : ℕ) (ts : List Phase) → waits size k ++ checked size ∷ ts ≡ waits size (suc k) ++ ts
waits-shift size zero ts = refl
waits-shift size (suc k) ts = ap (λ us. checked size ∷ us) (waits-shift size k ts)

idlers-shift : (i : ℕ) (ts : List Phase) → idlers i ++ idle ∷ ts ≡ idlers (suc i) ++ ts
idlers-shift zero ts = refl
idlers-shift (suc i) ts = ap (λ us. idle ∷ us) (idlers-shift i ts)

abbrev over : PluginArena → List Phase → System
over a ts = record { arena = a; threads = ts }

-- The first `k` threads have looked.
some_checked :
    (m capacity n size k j : ℕ)
    → size ≤ m
    → size ≤ capacity
    → k + j ≡ n
    → Reach m capacity n (over (new_arena capacity) (waits size k ++ idlers j))
unfolding has_room
some_checked m capacity n size zero j le fits e =
    subst (λ i. Reach m capacity n (over (new_arena capacity) (idlers i))) (omega (arith, e)) start
some_checked m capacity n size (suc k) j le fits e =
    subst (λ ts. Reach m capacity n (over (new_arena capacity) ts)) (waits-shift size k (idlers j))
      (later (some_checked m capacity n size k (suc j) le fits (omega (arith, e)))
        (check (waits size k) (idlers j) size refl le (ground (arith, fits))))

times_add : (a b c : ℕ) → a * (b + c) ≡ a * b + a * c
times_add a b c = grind arith

-- The first `i` of the threads that looked have added.
some_added :
    (m capacity n size i k : ℕ)
    → size ≤ m
    → size ≤ capacity
    → size * n < u64_mod
    → i + k ≡ n
    → (a : PluginArena) × (a.used ≡ size * i)
      × Reach m capacity n (over a (idlers i ++ waits size k))
unfolding commit
some_added m capacity n size zero k le fits word e = (
  new_arena capacity,
  omega arith,
  subst (λ ts. Reach m capacity n (over (new_arena capacity) ts))
      (append-nil (waits size n) ∙ ap (waits size) (sym e ∙ omega arith))
      (some_checked m capacity n size n 0 le fits (omega arith)),
)
some_added m capacity n size (suc i) k le fits word e =
    let (a, used, r) = some_added m capacity n size i (suc k) le fits word (omega (arith, e)) in
    (
      commit size (suc i) a,
      omega (arith, used, word, ap (λ q. size * q) e, times_add size (suc i) k, times_suc size i),
      subst (λ ts. Reach m capacity n (over (commit size (suc i) a) ts))
          (idlers-shift i (waits size k))
          (later r (add (idlers i) (waits size k) size (suc i) refl)),
    )

-- Any number of threads that ask for the same size, which fits on its own, can bring an arena to hold it
-- for all of them at once, if the sum is below 2 ^ 64.
pub reach-overshoot :
    (m capacity n size : ℕ)
    → size ≤ m
    → size ≤ capacity
    → size * n < u64_mod
    → (s : System) × Reach m capacity n s × (s.arena.used ≡ size * n)
reach-overshoot m capacity n size le fits word =
    let (a, used, r) = some_added m capacity n size n 0 le fits word (omega arith) in
    (over a (idlers n ++ []), r, used)
