-- ===== src/Cluster/Conflicts.antt =====
-- When the version vectors of abi/src/clustering.rs are in conflict: maps that differ in an entry 0 are not
-- equal, although each has the other one's values.
use skylet.Prelude.{
  ℕ, ◌≤◌, ◌≡◌, ◌⊎◌, ◌↔◌, refl, sym, true, false, some, [], ◌∷◌, arith, Bool-cases, inl, inr, none,
  Option-cases,
}
use skylet.Prelude.Lists.{length, all}
use skylet.Prelude.Texts.{Text, text_eq_iff, contains}
use skylet.Prelude.Dict
use skylet.Prelude.Dict.{lookup-cons, lookup-nil}
use skylet.Prelude.Sets.{Nodup, length-keys, keys_iff, covers, length-le-of_keys}
use skylet.Cluster.{has_value, VersionVector, eq_vector, detect_version_conflict_static}
use skylet.Cluster.Vectors.{
  Exceeds, SameValues, dominates-Exceeds, dominates-SameValues, concurrent,
}

-- An entry 0 that only one of two vectors has.
abbrev pub ZeroEntry : VersionVector → VersionVector → Type 0
ZeroEntry a b = (k : Text) × (Dict.lookup k a ≡ some 0) × (Dict.lookup k b ≡ none)

-- Every entry of one map is an entry of another one.
abbrev EntriesIn : VersionVector → VersionVector → Type 0
EntriesIn v b = all (λ (kv : Text × ℕ). has_value kv.1 (Dict.lookup kv.0 b)) v ≡ true

entries_cases :
    (a b v : VersionVector)
    → Nodup (Dict.keys v)
    → ((k : Text) → contains k (Dict.keys v) ≡ true → Dict.lookup k a ≡ Dict.lookup k v)
    → SameValues a b
    → EntriesIn v b ⊎ ZeroEntry a b
unfolding Dict.lookup
entries_cases a b [] n h same = inl refl
entries_cases a b ((j, m) ∷ v) n h same =
    let here_a : Dict.lookup j a ≡ some m = ground (arith, h j, text_eq_iff j j) in
    let rest =
      entries_cases a b v n.1 (λ k i. ground (arith, h k, i, text_eq_iff k j, text_eq_iff j k, n.0))
        same in
    elim (Option-cases (Dict.lookup j b)) [
      | inl e ↦ inr (j, ground (arith, here_a, e, same j), e)
      | inr (w, e) ↦ elim rest [
        | inl r ↦ inl (ground (arith, here_a, e, same j, r))
        | inr z ↦ inr z
      ]
    ]

lookup-EntriesIn :
    (v b : VersionVector) (k : Text)
    → EntriesIn v b
    → contains k (Dict.keys v) ≡ true
    → Dict.lookup k b ≡ Dict.lookup k v
unfolding Dict.lookup
lookup-EntriesIn [] b k h i = ground (arith, i)
lookup-EntriesIn ((j, m) ∷ v) b k h i =
    ground (arith, h, i, lookup-EntriesIn v b k, text_eq_iff k j, text_eq_iff j k)

keys-EntriesIn :
    (v b : VersionVector) (k : Text)
    → EntriesIn v b
    → contains k (Dict.keys v) ≡ true
    → contains k (Dict.keys b) ≡ true
keys-EntriesIn v b k h i = ground (arith, i, lookup-EntriesIn v b k h i, keys_iff k v, keys_iff k b)

length-EntriesIn : (v b : VersionVector) → Nodup (Dict.keys v) → EntriesIn v b → length v ≤ length b
length-EntriesIn v b n h =
    omega
      (arith, length-keys v, length-le-of_keys b (Dict.keys v) n (λ k i. keys-EntriesIn v b k h i))

-- Maps with the same values that are not equal differ in an entry 0.
unequal-ZeroEntry :
    (a b : VersionVector)
    → Nodup (Dict.keys a)
    → Nodup (Dict.keys b)
    → SameValues a b
    → eq_vector a b ≡ false
    → ZeroEntry a b ⊎ ZeroEntry b a
unfolding eq_vector
unequal-ZeroEntry a b na nb same h = elim (entries_cases a b a na (λ k i. refl) same) [
  | inr z ↦ inl z
  | inl p ↦ elim (entries_cases b a b nb (λ k i. refl) (λ k. sym (same k))) [
    | inr z ↦ inr z
    | inl q ↦ absurd (ground (arith, h, p, length-EntriesIn a b na p, length-EntriesIn b a nb q))
  ]
]

equal-EntriesIn :
    (a b : VersionVector) → eq_vector a b ≡ true → (length a ≡ length b) × EntriesIn a b
unfolding eq_vector
equal-EntriesIn a b h = (ground (arith, h), ground (arith, h))

ZeroEntry-unequal : (a b : VersionVector) → ZeroEntry a b → eq_vector a b ≡ false
ZeroEntry-unequal a b (k, za, zb) = elim (Bool-cases (eq_vector a b)) [
  | inr e ↦ e
  | inl e ↦
      absurd
        (ground (arith, za, zb, lookup-EntriesIn a b k (equal-EntriesIn a b e).1, keys_iff k a))
]

ZeroEntry-unequal_back :
    (a b : VersionVector) → Nodup (Dict.keys a) → ZeroEntry b a → eq_vector a b ≡ false
ZeroEntry-unequal_back a b n (k, zb, za) = elim (Bool-cases (eq_vector a b)) [
  | inr e ↦ e
  | inl e ↦
      let (size, h) = equal-EntriesIn a b e in
      let all_keys =
        covers b (Dict.keys a) k n (λ j i. keys-EntriesIn a b j h i)
          (omega (arith, size, length-keys a)) in
      absurd (ground (arith, za, zb, all_keys, keys_iff k a, keys_iff k b))
]

Exceeds-unequal : (a b : VersionVector) → Exceeds a b → eq_vector a b ≡ false
Exceeds-unequal a b (k, above) = elim (Bool-cases (eq_vector a b)) [
  | inr e ↦ e
  | inl e ↦
      absurd (ground (arith, above, lookup-EntriesIn a b k (equal-EntriesIn a b e).1, keys_iff k a))
]

-- A conflict is found between two vectors, of which each has every key once, exactly when each of them is
-- above the other one somewhere, or when they have the same values and one of them has an entry 0 at a key
-- that the other one does not have.
pub detect_version_conflict_static_iff :
    (a b : VersionVector)
    → Nodup (Dict.keys a)
    → Nodup (Dict.keys b)
    → (detect_version_conflict_static a b ≡ some (a, b))
      ↔ ((Exceeds a b × Exceeds b a) ⊎ (SameValues a b × (ZeroEntry a b ⊎ ZeroEntry b a)))
unfolding detect_version_conflict_static
detect_version_conflict_static_iff a b na nb = (
  λ h. elim (concurrent a b (ground (arith, h)) (ground (arith, h))) [
    | inl x ↦ inl x
    | inr same ↦ inr (same, unequal-ZeroEntry a b na nb same (ground (arith, h)))
  ],
  λ g. elim g [
    | inl (x, y) ↦
        ground (arith, Exceeds-unequal a b x, dominates-Exceeds a b y, dominates-Exceeds b a x)
    | inr (same, z) ↦
        let unequal : eq_vector a b ≡ false = elim z [
          | inl za ↦ ZeroEntry-unequal a b za
          | inr zb ↦ ZeroEntry-unequal_back a b na zb
        ] in
        ground (
          arith,
          unequal,
          dominates-SameValues a b same,
          dominates-SameValues b a (λ k. sym (same k)),
        )
  ],
)
