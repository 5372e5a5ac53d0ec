-- ===== src/Prelude/Texts/Laws.antt =====
-- Laws of the methods of strings, for texts where the separator does not occur.
use Prim.Native.Nat.{ℕ}
use mathlib.Core.Path.{◌≡◌, refl}
use mathlib.Core.Logic.{◌≢◌}
use mathlib.Core.Bool.{true, not}
use mathlib.Core.Option.{none, some}
use mathlib.Core.List.{List, [], ◌∷◌, ◌++◌}
use native.Mathlib.Omega.{arith}
use skylet.Prelude.Tests.{◌==◌}
use skylet.Prelude.Lists.{all, All}
use skylet.Prelude.Texts.{Text, is_whitespace, trim_end, split_once, split, join}

-- `c` does not occur in `t`.
abbrev pub Lacks : ℕ → Text → Type 0
Lacks c t = all (λ d. not (d == c)) t ≡ true

abbrev pub HasNoSpace : Text → Type 0
HasNoSpace t = all (λ d. not (is_whitespace d)) t ≡ true

module _ (c : ℕ) where
  pub split_once-Lacks : (s : Text) → Lacks c s → split_once c s ≡ none
  unfolding split_once
  split_once-Lacks [] h = refl
  split_once-Lacks (d ∷ s) h = ground (arith, split_once-Lacks s)

  pub split_once-append : (s t : Text) → Lacks c s → split_once c (s ++ c ∷ t) ≡ some (s, t)
  unfolding split_once
  split_once-append [] t h = ground arith
  split_once-append (d ∷ s) t h = ground (arith, split_once-append s t)

  pub split-Lacks : (s : Text) → Lacks c s → split c s ≡ s ∷ []
  unfolding split
  split-Lacks [] h = refl
  split-Lacks (d ∷ s) h = ground (arith, split-Lacks s)

  pub split-append : (s t : Text) → Lacks c s → split c (s ++ c ∷ t) ≡ s ∷ split c t
  unfolding split
  split-append [] t h = ground arith
  split-append (d ∷ s) t h = ground (arith, split-append s t)

  -- Splitting undoes joining by the separator.
  pub split-join :
      (w : Text) (ws : List Text)
      → All (Lacks c) (w ∷ ws)
      → split c (join (c ∷ []) (w ∷ ws)) ≡ w ∷ ws
  unfolding join
  split-join w [] h = split-Lacks w h.0
  split-join w (v ∷ ws) h =
      ground (arith, split-append w (join (c ∷ []) (v ∷ ws)) h.0, split-join v ws h.1)

pub trim_end-append : (s t : Text) → t ≢ [] → trim_end t ≡ t → trim_end (s ++ t) ≡ s ++ t
unfolding trim_end
trim_end-append [] t h e = e
trim_end-append (c ∷ s) [] h e = ground arith
trim_end-append (c ∷ []) (d ∷ t) h e = ground arith
trim_end-append (c ∷ b ∷ s) (d ∷ t) h e = ground (arith, trim_end-append (b ∷ s) (d ∷ t) h e)

pub trim_end-HasNoSpace : (s : Text) → HasNoSpace s → trim_end s ≡ s
unfolding trim_end
trim_end-HasNoSpace [] h = refl
trim_end-HasNoSpace (c ∷ []) h = ground arith
trim_end-HasNoSpace (c ∷ d ∷ s) h = ground (arith, trim_end-HasNoSpace (d ∷ s))
