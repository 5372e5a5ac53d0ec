-- ===== src/Cluster/Vectors.antt =====
-- What the comparison of version vectors in abi/src/clustering.rs says of them, a missing entry being 0.
use skylet.Prelude.{
  ℕ, ◌≤◌, ◌<◌, ◌≡◌, ◌⊎◌, ◌↔◌, refl, sym, Bool, true, false, ◌||◌, List, [], ◌∷◌, ◌++◌, ltb, arith,
  Bool-cases, inl, inr,
}
use skylet.Prelude.Lists.{All, All-In, In, here, there, In-append_left, In-append_right}
use skylet.Prelude.Texts.{Text, text_eq, text_eq_iff}
use skylet.Prelude.Dict
use skylet.Prelude.Dict.{lookup-cons, lookup-nil}
use skylet.Cluster.{VersionVector, value_at, dominates_on, version_vector_dominates}

abbrev pub AtLeast : VersionVector → VersionVector → Type 0
AtLeast a b = (k : Text) → value_at k b ≤ value_at k a

abbrev pub Exceeds : VersionVector → VersionVector → Type 0
Exceeds a b = (k : Text) × (value_at k b < value_at k a)

abbrev pub SameValues : VersionVector → VersionVector → Type 0
SameValues a b = (k : Text) → value_at k a ≡ value_at k b

-- A key that is not listed has no value.
listed : (k : Text) (v : VersionVector) → In k (Dict.keys v) ⊎ (value_at k v ≡ 0)
listed k [] = inr (ground (arith, lookup-nil {V = ℕ} k))
listed k ((j, n) ∷ v) = elim (Bool-cases (text_eq j k)) [
  | inl e ↦ inl (here ((text_eq_iff j k).0 e))
  | inr e ↦ elim (listed k v) [
    | inl i ↦ inl (there i)
    | inr z ↦ inr (ground (arith, e, z, lookup-cons k j n v))
  ]
]

-- What holds of the values at the listed keys holds of those at all keys.
at_all_keys :
    (P : ℕ → ℕ → Type 0) (a b : VersionVector)
    → P 0 0
    → All (λ k. P (value_at k a) (value_at k b)) (Dict.keys a ++ Dict.keys b)
    → (k : Text) → P (value_at k a) (value_at k b)
at_all_keys P a b z h k = elim (listed k a) [
  | inl i ↦ All-In _ _ h (In-append_left (Dict.keys a) (Dict.keys b) i)
  | inr za ↦ elim (listed k b) [
    | inl i ↦ All-In _ _ h (In-append_right (Dict.keys a) (Dict.keys b) i)
    | inr zb ↦ rw (za, zb) z
  ]
]

-- What the loop found when it says yes, and when it says no.
abbrev Found : List Text → VersionVector → VersionVector → Bool → Type 0
Found ks a b s =
    (dominates_on ks a b s ≡ true)
    × All (λ k. value_at k b ≤ value_at k a) ks
    × ((s ≡ true) ⊎ Exceeds a b)

abbrev NotFound : List Text → VersionVector → VersionVector → Bool → Type 0
NotFound ks a b s =
    (dominates_on ks a b s ≡ false)
    × (Exceeds b a ⊎ ((s ≡ false) × All (λ k. value_at k a ≡ value_at k b) ks))

dominates_on-cases :
    (ks : List Text) (a b : VersionVector) (s : Bool) → Found ks a b s ⊎ NotFound ks a b s
unfolding dominates_on
dominates_on-cases [] a b true = inl (refl, tt, inl refl)
dominates_on-cases [] a b false = inr (refl, inr (refl, tt))
dominates_on-cases (k ∷ ks) a b s = elim (Bool-cases (ltb (value_at k a) (value_at k b))) [
  | inl below ↦ inr (ground (arith, below), inl (k, ground (arith, below)))
  | inr above ↦ elim (dominates_on-cases ks a b (s || ltb (value_at k b) (value_at k a))) [
    | inl (e, h, g) ↦ inl (
      ground (arith, above, e),
      (ground (arith, above), h),
      elim g [
        | inl t ↦ elim (Bool-cases s) [ inl y ↦ inl y | inr n ↦ inr (k, ground (arith, t, n)) ]
        | inr x ↦ inr x
      ],
    )
    | inr (e, g) ↦ inr (
      ground (arith, above, e),
      elim g [
        | inl x ↦ inl x
        | inr (f, h) ↦ inr (ground (arith, f), (ground (arith, above, f), h))
      ],
    )
  ]
]

dominates-cases :
    (a b : VersionVector)
    → ((version_vector_dominates a b ≡ true) × AtLeast a b × Exceeds a b)
      ⊎ ((version_vector_dominates a b ≡ false) × (Exceeds b a ⊎ SameValues a b))
unfolding version_vector_dominates
dominates-cases a b = elim (dominates_on-cases (Dict.keys a ++ Dict.keys b) a b false) [
  | inl (e, h, g) ↦ inl (
    e,
    at_all_keys (λ m n. n ≤ m) a b (omega arith) h,
    elim g [ inl t ↦ absurd (ground (arith, t)) | inr x ↦ x ],
  )
  | inr (e, g) ↦
      inr (e, elim g [ inl x ↦ inl x | inr (f, h) ↦ inr (at_all_keys (λ m n. m ≡ n) a b refl h) ])
]

-- A vector dominates another one exactly when it is nowhere below it, and above it somewhere.
pub version_vector_dominates_iff :
    (a b : VersionVector) → (version_vector_dominates a b ≡ true) ↔ (AtLeast a b × Exceeds a b)
version_vector_dominates_iff a b = elim (dominates-cases a b) [
  | inl (e, h, g) ↦ ((λ t. (h, g)), (λ t. e))
  | inr (e, g) ↦ (
    (λ t. absurd (ground (arith, e, t))),
    (λ t. elim g [
      | inl (k, below) ↦ absurd (omega (arith, below, t.0 k))
      | inr same ↦ absurd (omega (arith, same t.1.0, t.1.1))
    ]),
  )
]

-- Vectors of which one does not dominate the other.
pub dominates-Exceeds : (a b : VersionVector) → Exceeds b a → version_vector_dominates a b ≡ false
dominates-Exceeds a b (k, below) = elim (dominates-cases a b) [
  | inl (e, h, g) ↦ absurd (omega (arith, below, h k))
  | inr (e, g) ↦ e
]

pub dominates-SameValues :
    (a b : VersionVector) → SameValues a b → version_vector_dominates a b ≡ false
dominates-SameValues a b same = elim (dominates-cases a b) [
  | inl (e, h, (k, above)) ↦ absurd (omega (arith, above, same k))
  | inr (e, g) ↦ e
]

pub concurrent :
    (a b : VersionVector)
    → version_vector_dominates a b ≡ false
    → version_vector_dominates b a ≡ false
    → (Exceeds a b × Exceeds b a) ⊎ SameValues a b
concurrent a b m n = elim (dominates-cases a b) [
  | inl (e, h, x) ↦ absurd (ground (arith, e, m))
  | inr (e, inr same) ↦ inr same
  | inr (e, inl x) ↦ elim (dominates-cases b a) [
    | inl (d, h, y) ↦ absurd (ground (arith, d, n))
    | inr (d, inl y) ↦ inl (y, x)
    | inr (d, inr same) ↦ inr (λ k. sym (same k))
  ]
]
