-- ===== src/Prelude/Sorting.antt =====
-- `Vec<String>::sort`: the sorted list of some texts.
use Prim.Native.Nat.{Ordering}
use mathlib.Core.Path.{◌≡◌, refl}
use mathlib.Core.Bool.{Bool, true, false, ◌||◌}
use mathlib.Core.List.{List, [], ◌∷◌}
use native.Mathlib.Omega.{arith}
use skylet.Prelude.Tests.{if◌then◌else◌}
use skylet.Prelude.Texts.{Text, text_eq, text_cmp, text_cmp-IsOrder, contains}

abbrev pub text_gt : Text → Text → Bool
text_gt a b = elim (text_cmp a b) [ Ordering.gt ↦ true | _ ↦ false ]

unfoldable pub insert_sorted : Text → List Text → List Text
insert_sorted x [] = x ∷ []
insert_sorted x (y ∷ l) = if text_gt x y then y ∷ insert_sorted x l else x ∷ y ∷ l

unfoldable pub sort : List Text → List Text
unfolding insert_sorted
sort [] = []
sort (x ∷ l) = insert_sorted x (sort l)

-- No text stands behind a greater one.
abbrev pub Ordered : Text → List Text → Type 0
Ordered x [] = Unit
Ordered x (y ∷ l) = (text_gt x y ≡ false) × Ordered y l

abbrev pub IsSorted : List Text → Type 0
IsSorted [] = Unit
IsSorted (x ∷ l) = Ordered x l

text_gt_flip : (a b : Text) → text_gt a b ≡ true → text_gt b a ≡ false
text_gt_flip a b h = ground (arith, text_cmp-IsOrder.flips a b)

insert_sorted-Ordered :
    (x y : Text) (l : List Text) → text_gt y x ≡ false → Ordered y l → Ordered y (insert_sorted x l)
unfolding insert_sorted
insert_sorted-Ordered x y [] h k = (h, tt)
insert_sorted-Ordered x y (z ∷ l) h k =
    ground (arith, h, k, text_gt_flip x z, insert_sorted-Ordered x z l)

insert_sorted-IsSorted : (x : Text) (l : List Text) → IsSorted l → IsSorted (insert_sorted x l)
unfolding insert_sorted
insert_sorted-IsSorted x [] h = tt
insert_sorted-IsSorted x (z ∷ l) h =
    ground (arith, h, text_gt_flip x z, insert_sorted-Ordered x z l)

pub sort-IsSorted : (l : List Text) → IsSorted (sort l)
unfolding sort
sort-IsSorted [] = tt
sort-IsSorted (x ∷ l) = insert_sorted-IsSorted x (sort l) (sort-IsSorted l)

contains-insert_sorted :
    (a x : Text) (l : List Text) → contains a (insert_sorted x l) ≡ (text_eq a x || contains a l)
unfolding insert_sorted
contains-insert_sorted a x [] = refl
contains-insert_sorted a x (z ∷ l) = ground (arith, contains-insert_sorted a x l)

pub contains-sort : (a : Text) (l : List Text) → contains a (sort l) ≡ contains a l
unfolding sort
contains-sort a [] = refl
contains-sort a (x ∷ l) = ground (arith, contains-insert_sorted a x (sort l), contains-sort a l)
