-- ===== src/Prelude/Sets.antt =====
-- Lists of texts as sets (`HashSet<String>`), and the keys of dictionaries.
use mathlib.Core.Path.{◌≡◌, refl, sym, subst}
use mathlib.Core.Logic.{inl, inr}
use mathlib.Core.Bool.{Bool, true, false, not, ◌&&◌, ◌||◌}
use mathlib.Core.Option.{Option, none, some}
use mathlib.Core.List.{List, [], ◌∷◌, ◌++◌}
use Prim.Native.Nat.{suc, ◌≤◌}
use native.Mathlib.Omega.{arith}
use skylet.Prelude.Tests.{if◌then◌else◌, Bool-cases}
use skylet.Prelude.Lists.{length, filter, All}
use skylet.Prelude.Texts.{Text, text_eq, text_eq_iff, contains}
use skylet.Prelude.Dict.{Dict, lookup, insert, keys}

-- `HashSet::insert`
abbrev pub set_insert : Text → List Text → List Text
set_insert x l = if contains x l then l else l ++ x ∷ []

abbrev pub Nodup : List Text → Type 0
Nodup [] = Unit
Nodup (x ∷ l) = (contains x l ≡ false) × Nodup l

pub contains-append :
    (a : Text) (l k : List Text) → contains a (l ++ k) ≡ (contains a l || contains a k)
contains-append a [] k = refl
contains-append a (x ∷ l) k = ground (arith, contains-append a l k)

pub contains-set_insert :
    (a x : Text) (l : List Text) → contains a (set_insert x l) ≡ (contains a l || text_eq a x)
contains-set_insert a x l = ground (arith, contains-append a l (x ∷ []), text_eq_iff a x)

pub Nodup-snoc : (l : List Text) (x : Text) → Nodup l → contains x l ≡ false → Nodup (l ++ x ∷ [])
Nodup-snoc [] x h k = (refl, tt)
Nodup-snoc (y ∷ l) x h k = (
  ground (arith, contains-append y l (x ∷ []), text_eq_iff x y, text_eq_iff y x, h.0),
  Nodup-snoc l x h.1 (ground arith),
)

pub Nodup-set_insert : (l : List Text) (x : Text) → Nodup l → Nodup (set_insert x l)
Nodup-set_insert l x h = elim (Bool-cases (contains x l)) [
  | inl e ↦ rw e h
  | inr e ↦ rw e (Nodup-snoc l x h e)
]

pub Nodup-middle :
    (l : List Text) (x : Text) (r : List Text) → Nodup (l ++ x ∷ r) → contains x l ≡ false
Nodup-middle [] x r h = refl
Nodup-middle (y ∷ l) x r h = ground (
  arith,
  Nodup-middle l x r h.1,
  contains-append y l (x ∷ r),
  h.0,
  text_eq_iff x y,
  text_eq_iff y x,
)

-- Dropping a value shortens a list without repetitions by one at most.
abbrev pub others : Text → List Text → List Text
others x = filter (λ y. not (text_eq y x))

contains-others :
    (a x : Text) (l : List Text) → contains a (others x l) ≡ (contains a l && not (text_eq a x))
contains-others a x [] = refl
contains-others a x (y ∷ l) =
    ground (arith, contains-others a x l, text_eq_iff a y, text_eq_iff y x, text_eq_iff a x)

others-absent : (x : Text) (l : List Text) → contains x l ≡ false → others x l ≡ l
others-absent x [] h = refl
others-absent x (y ∷ l) h = ground (arith, others-absent x l, text_eq_iff x y, text_eq_iff y x)

length-others : (x : Text) (l : List Text) → Nodup l → length l ≤ suc (length (others x l))
length-others x [] h = omega arith
length-others x (y ∷ l) h = elim (Bool-cases (text_eq y x)) [
  | inl e ↦ ground (arith, e, others-absent x l, text_eq_iff y x, h.0)
  | inr e ↦ ground (arith, e, length-others x l h.1)
]

Nodup-others : (x : Text) (l : List Text) → Nodup l → Nodup (others x l)
Nodup-others x [] h = tt
Nodup-others x (y ∷ l) h = elim (Bool-cases (text_eq y x)) [
  | inl e ↦ rw e (Nodup-others x l h.1)
  | inr e ↦ rw e (ground (arith, contains-others y x l, h.0), Nodup-others x l h.1)
]

abbrev pub is_some {ℓ} : {A : Type ℓ} → Option A → Bool
is_some none = false
is_some (some a) = true

-- A list without repetitions, all of whose values are keys, is no longer than the dictionary.
pub length-le-of_keys {ℓ} :
    {V : Type ℓ} (m : Dict V) (l : List Text)
    → Nodup l
    → ((a : Text) → contains a l ≡ true → contains a (keys m) ≡ true)
    → length l ≤ length m
length-le-of_keys [] [] h k = omega arith
length-le-of_keys [] (x ∷ l) h k = ground (arith, k x, text_eq_iff x x)
length-le-of_keys ((j, v) ∷ m) l h k = omega (
  arith,
  length-others j l h,
  length-le-of_keys m (others j l) (Nodup-others j l h)
      (λ a i. ground (arith, contains-others a j l, k a, text_eq_iff a j)),
)

module _ {ℓ} {V : Type ℓ} where
  pub length-keys : (m : Dict V) → length (keys m) ≡ length m
  length-keys [] = refl
  length-keys ((k, v) ∷ m) = omega (arith, length-keys m)

  pub keys-insert :
      (a k : Text) (v : V) (m : Dict V)
      → contains a (keys (insert k v m)) ≡ (contains a (keys m) || text_eq a k)
  unfolding insert
  keys-insert a k v [] = ground arith
  keys-insert a k v ((j, w) ∷ m) =
      ground (arith, keys-insert a k v m, text_eq_iff j k, text_eq_iff a k, text_eq_iff a j)

  pub Nodup-keys-insert :
      (k : Text) (v : V) (m : Dict V) → Nodup (keys m) → Nodup (keys (insert k v m))
  unfolding insert
  Nodup-keys-insert k v [] h = (refl, tt)
  Nodup-keys-insert k v ((j, w) ∷ m) h = elim (Bool-cases (text_eq j k)) [
    | inl e ↦ rw (e, insert) (ground (arith, h.0, e, text_eq_iff j k), h.1)
    | inr e ↦
        rw (e, insert) (ground (arith, keys-insert j k v m, h.0, e), Nodup-keys-insert k v m h.1)
  ]

  -- Overwriting a key keeps the number of entries.
  pub length-insert_known :
      (k : Text) (v : V) (m : Dict V)
      → contains k (keys m) ≡ true
      → length (insert k v m) ≡ length m
  unfolding insert
  length-insert_known k v [] h = ground arith
  length-insert_known k v ((j, w) ∷ m) h =
      ground (arith, length-insert_known k v m, text_eq_iff j k, text_eq_iff k j)

  pub keys_iff : (k : Text) (m : Dict V) → contains k (keys m) ≡ is_some (lookup k m)
  unfolding lookup
  keys_iff k [] = refl
  keys_iff k ((j, w) ∷ m) = ground (arith, keys_iff k m, text_eq_iff j k, text_eq_iff k j)

-- A list without repetitions of as many keys as there are entries holds every key.
pub covers {ℓ} :
    {V : Type ℓ} (m : Dict V) (l : List Text) (k : Text)
    → Nodup l
    → ((a : Text) → contains a l ≡ true → contains a (keys m) ≡ true)
    → length l ≡ length m
    → contains k (keys m) ≡ true
    → contains k l ≡ true
covers m l k n sub e i = elim (Bool-cases (contains k l)) [
  | inl h ↦ h
  | inr h ↦ absurd (
      omega
        (arith, length-le-of_keys m (k ∷ l) (h, n) (λ a j. ground (arith, sub a, text_eq_iff a k))))
]

pub All-contains :
    (P : Text → Type 0) (l : List Text) → ((a : Text) → contains a l ≡ true → P a) → All P l
All-contains P [] h = tt
All-contains P (x ∷ l) h =
    (h x (ground (arith, text_eq_iff x x)), All-contains P l (λ a i. h a (ground arith)))

pub contains-of_All :
    (P : Text → Type 0) (l : List Text) (a : Text) → All P l → contains a l ≡ true → P a
contains-of_All P [] a h i = ground arith
contains-of_All P (x ∷ l) a h i = elim (Bool-cases (text_eq a x)) [
  | inl e ↦ subst P (sym ((text_eq_iff a x).0 e)) h.0
  | inr e ↦ contains-of_All P l a h.1 (ground arith)
]

-- What holds of every value of a dictionary.
module _ {ℓ κ} {V : Type ℓ} (P : V → Type κ) where
  abbrev pub AllValues : Dict V → Type κ
  AllValues [] = Unit
  AllValues ((k, v) ∷ m) = P v × AllValues m

  pub AllValues-insert :
      (k : Text) (v : V) (m : Dict V) → P v → AllValues m → AllValues (insert k v m)
  unfolding insert
  AllValues-insert k v [] h all = (h, tt)
  AllValues-insert k v ((j, w) ∷ m) h all = elim (Bool-cases (text_eq j k)) [
    | inl e ↦ rw (e, insert) (h, all.1)
    | inr e ↦ rw (e, insert) (all.0, AllValues-insert k v m h all.1)
  ]

  pub AllValues-lookup : (k : Text) (v : V) (m : Dict V) → AllValues m → lookup k m ≡ some v → P v
  unfolding lookup
  AllValues-lookup k v [] all h = ground arith
  AllValues-lookup k v ((j, w) ∷ m) all h = elim (Bool-cases (text_eq j k)) [
    | inl e ↦ subst P (ground (arith, h, e)) all.0
    | inr e ↦ AllValues-lookup k v m all.1 (ground (arith, h, e))
  ]
