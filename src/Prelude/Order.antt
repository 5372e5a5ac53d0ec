-- ===== src/Prelude/Order.antt =====
-- Comparison functions into `Ordering`, as `Ord::cmp` of the program, and the laws of a total order.
use Prim.Native.Nat.{compare, Ordering}
use mathlib.Core.Path.{◌≡◌, refl}
use mathlib.Core.Logic.{◌↔◌}
use mathlib.Core.List.{List, [], ◌∷◌}
use native.Mathlib.Omega.{arith}
use skylet.Prelude.Lists.{length}
pub use Prim.Native.Nat.Ordering.{lt, eq, gt}

-- `Ordering::reverse`.
abbrev pub flip : Ordering → Ordering
flip Ordering.lt = Ordering.gt
flip Ordering.eq = Ordering.eq
flip Ordering.gt = Ordering.lt

-- `match o { Equal => {} , ord => return ord }`, with what comes after it.
abbrev pub or_else : Ordering → Ordering → Ordering
or_else Ordering.eq o = o
or_else Ordering.lt o = Ordering.lt
or_else Ordering.gt o = Ordering.gt

pub record IsOrder {ℓ} {A : Type ℓ} (cmp : A → A → Ordering) : Type ℓ where
  pub flips : (a b : A) → cmp b a ≡ flip (cmp a b)
  pub equal : (a b : A) → (cmp a b ≡ Ordering.eq) ↔ (a ≡ b)
  pub trans : (a b c : A) → cmp a b ≡ Ordering.lt → cmp b c ≡ Ordering.lt → cmp a c ≡ Ordering.lt

pub compare-IsOrder : IsOrder compare
compare-IsOrder = record {
  flips = λ a b. ground arith;
  equal = λ a b. ground arith;
  trans = λ a b c p q. ground arith;
}

-- The loop over `a.iter().zip(b)`, which returns at the first pair that differs.
unfoldable pub zip_cmp {ℓ} : {A : Type ℓ} → (A → A → Ordering) → List A → List A → Ordering
zip_cmp cmp [] bs = Ordering.eq
zip_cmp cmp (a ∷ as') [] = Ordering.eq
zip_cmp cmp (a ∷ as') (b ∷ bs) = or_else (cmp a b) (zip_cmp cmp as' bs)

-- The lexicographic order: a proper prefix is less.
unfoldable pub lex_cmp {ℓ} : {A : Type ℓ} → (A → A → Ordering) → List A → List A → Ordering
lex_cmp cmp [] [] = Ordering.eq
lex_cmp cmp [] (b ∷ bs) = Ordering.lt
lex_cmp cmp (a ∷ as') [] = Ordering.gt
lex_cmp cmp (a ∷ as') (b ∷ bs) = or_else (cmp a b) (lex_cmp cmp as' bs)

module _ {ℓ} {A : Type ℓ} (cmp : A → A → Ordering) where
  pub zip_cmp-eq-lex_cmp :
      (xs ys : List A)
      → or_else (zip_cmp cmp xs ys) (compare (length xs) (length ys)) ≡ lex_cmp cmp xs ys
  unfolding zip_cmp lex_cmp
  zip_cmp-eq-lex_cmp [] [] = ground arith
  zip_cmp-eq-lex_cmp [] (y ∷ ys) = ground arith
  zip_cmp-eq-lex_cmp (x ∷ xs) [] = ground arith
  zip_cmp-eq-lex_cmp (x ∷ xs) (y ∷ ys) = ground (arith, zip_cmp-eq-lex_cmp xs ys)

module _ {ℓ} {A : Type ℓ} (cmp : A → A → Ordering) (o : IsOrder cmp) where
  lex_flips : (xs ys : List A) → lex_cmp cmp ys xs ≡ flip (lex_cmp cmp xs ys)
  unfolding lex_cmp
  lex_flips [] [] = refl
  lex_flips [] (y ∷ ys) = refl
  lex_flips (x ∷ xs) [] = refl
  lex_flips (x ∷ xs) (y ∷ ys) = ground (arith, lex_flips xs ys, o.flips x y)

  lex_equal : (xs ys : List A) → (lex_cmp cmp xs ys ≡ Ordering.eq) ↔ (xs ≡ ys)
  unfolding lex_cmp
  lex_equal [] [] = ground arith
  lex_equal [] (y ∷ ys) = ground arith
  lex_equal (x ∷ xs) [] = ground arith
  lex_equal (x ∷ xs) (y ∷ ys) = ground (arith, lex_equal xs ys, o.equal x y)

  lex_trans :
      (xs ys zs : List A)
      → lex_cmp cmp xs ys ≡ Ordering.lt
      → lex_cmp cmp ys zs ≡ Ordering.lt
      → lex_cmp cmp xs zs ≡ Ordering.lt
  unfolding lex_cmp
  lex_trans [] [] zs p q = ground arith
  lex_trans [] (y ∷ ys) [] p q = ground arith
  lex_trans [] (y ∷ ys) (z ∷ zs) p q = refl
  lex_trans (x ∷ xs) [] zs p q = ground arith
  lex_trans (x ∷ xs) (y ∷ ys) [] p q = ground arith
  lex_trans (x ∷ xs) (y ∷ ys) (z ∷ zs) p q =
      ground (arith, lex_trans xs ys zs, o.trans x y z, o.equal x y, o.equal y z, o.equal x z)

  pub lex_cmp-IsOrder : IsOrder (lex_cmp cmp)
  lex_cmp-IsOrder = record { flips = lex_flips; equal = lex_equal; trans = lex_trans }
