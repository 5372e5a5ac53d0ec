-- ===== src/Resolver/Extremes.antt =====
-- The greatest and the least version that abi/src/dependencies/resolver.rs takes from candidates.
use skylet.Prelude.{◌≡◌, ◌≢◌, refl, sym, Bool, true, false, List, [], ◌∷◌, Ordering, arith}
use skylet.Prelude.Lists.{In, here, there}
use skylet.Version.{Version, cmp_version}
use skylet.Version.Order.{SamePrecedence, cmp_version_flips, cmp_version-eq_iff, cmp_version_trans}
use skylet.Constraint.{version_le}
use skylet.Resolver.{max_from, min_from}

same_below : (a b c : Version) → SamePrecedence a b → cmp_version a c ≡ cmp_version b c
unfolding cmp_version
same_below a b c s = rw (s.major, s.minor, s.patch, s.pre) refl

version_le_refl : (a : Version) → version_le a a ≡ true
unfolding version_le
version_le_refl a = ground (
  arith,
  (cmp_version-eq_iff a a).1 (record { major = refl; minor = refl; patch = refl; pre = refl }),
)

-- The order of versions is transitive, and versions that differ in their build metadata alone are
-- not told apart by it.
version_le_trans :
    (a b c : Version) → version_le a b ≡ true → version_le b c ≡ true → version_le a c ≡ true
unfolding version_le
version_le_trans a b c p q = go (cmp_version a b) refl
  where
    go : (o : Ordering) → cmp_version a b ≡ o → version_le a c ≡ true
    go Ordering.gt e = ground (arith, e)
    go Ordering.eq e = ground (arith, same_below a b c ((cmp_version-eq_iff a b).0 e))
    go Ordering.lt e = ground (
      arith,
      e,
      cmp_version_trans a b c,
      cmp_version_flips a c,
      cmp_version_flips a b,
      same_below b c a,
      cmp_version-eq_iff b c,
    )

version_le_total : (a b : Version) → version_le a b ≡ false → version_le b a ≡ true
unfolding version_le
version_le_total a b h = ground (arith, cmp_version_flips a b)

-- One of the values, which `below` relates each of them to: a greatest one for `<=`, a least one for
-- `>=`.
pub record IsExtreme (below : Version → Version → Bool) (m : Version) (vs : List Version)
    : Type 0 where
  pub member : In m vs
  pub bound : (w : Version) → In w vs → below w m ≡ true

module _ (below : Version → Version → Bool) (reflexive : (a : Version) → below a a ≡ true)
    (trans : (a b c : Version) → below a b ≡ true → below b c ≡ true → below a c ≡ true) where
  single : (v : Version) → IsExtreme below v (v ∷ [])
  single v = record {
    member = here refl;
    bound = λ w i. elim i [ here e ↦ rw e (reflexive w) | there j ↦ elim j [ ] ];
  }

  keep_first :
      (m v w : Version) (ws : List Version)
      → below w v ≡ true
      → IsExtreme below m (v ∷ ws)
      → IsExtreme below m (v ∷ w ∷ ws)
  keep_first m v w ws le g = record {
    member = elim g.member [ here e ↦ here e | there i ↦ there (there i) ];
    bound = λ x i. elim i [
      | here e ↦ g.bound x (here e)
      | there (here e) ↦ trans x v m (rw (sym e) le) (g.bound v (here refl))
      | there (there j) ↦ g.bound x (there j)
    ];
  }

  keep_rest :
      (m v w : Version) (ws : List Version)
      → below v w ≡ true
      → IsExtreme below m (w ∷ ws)
      → IsExtreme below m (v ∷ w ∷ ws)
  keep_rest m v w ws le g = record {
    member = there g.member;
    bound = λ x i. elim i [
      | here e ↦ trans x w m (rw (sym e) le) (g.bound w (here refl))
      | there j ↦ g.bound x j
    ];
  }

abbrev pub at_most : Version → Version → Bool
at_most a b = version_le a b

abbrev pub at_least : Version → Version → Bool
at_least a b = version_le b a

at_least_trans : (a b c : Version) → at_least a b ≡ true → at_least b c ≡ true → at_least a c ≡ true
at_least_trans a b c p q = version_le_trans c b a q p

le_of_gt : (v w : Version) → cmp_version v w ≡ Ordering.gt → version_le w v ≡ true
unfolding version_le
le_of_gt v w e = ground (arith, cmp_version_flips v w)

le_of_not_gt : (v w : Version) → cmp_version v w ≢ Ordering.gt → version_le v w ≡ true
unfolding version_le
le_of_not_gt v w e = ground arith

max_step :
    (v w : Version) (ws : List Version)
    → IsExtreme at_most (max_from v ws) (v ∷ ws)
    → IsExtreme at_most (max_from w ws) (w ∷ ws)
    → IsExtreme at_most (max_from v (w ∷ ws)) (v ∷ w ∷ ws)
unfolding max_from
max_step v w ws kv kw = go (cmp_version v w) refl
  where
    go : (o : Ordering) → cmp_version v w ≡ o → IsExtreme at_most (max_from v (w ∷ ws)) (v ∷ w ∷ ws)
    go Ordering.lt e =
        rw (max_from, e)
          (keep_rest at_most version_le_refl version_le_trans (max_from w ws) v w ws
            (le_of_not_gt v w (ground (arith, e))) kw)
    go Ordering.eq e =
        rw (max_from, e)
          (keep_rest at_most version_le_refl version_le_trans (max_from w ws) v w ws
            (le_of_not_gt v w (ground (arith, e))) kw)
    go Ordering.gt e =
        rw (max_from, e)
          (keep_first at_most version_le_refl version_le_trans (max_from v ws) v w ws
            (le_of_gt v w e) kv)

pub max_from_lem : (v : Version) (vs : List Version) → IsExtreme at_most (max_from v vs) (v ∷ vs)
unfolding max_from
max_from_lem v [] = single at_most version_le_refl version_le_trans v
max_from_lem v (w ∷ ws) = max_step v w ws (max_from_lem v ws) (max_from_lem w ws)

min_step :
    (v w : Version) (ws : List Version)
    → IsExtreme at_least (min_from v ws) (v ∷ ws)
    → IsExtreme at_least (min_from w ws) (w ∷ ws)
    → IsExtreme at_least (min_from v (w ∷ ws)) (v ∷ w ∷ ws)
unfolding min_from
min_step v w ws kv kw = go (cmp_version v w) refl
  where
    go :
        (o : Ordering) → cmp_version v w ≡ o → IsExtreme at_least (min_from v (w ∷ ws)) (v ∷ w ∷ ws)
    go Ordering.lt e =
        rw (min_from, e)
          (keep_first at_least version_le_refl at_least_trans (min_from v ws) v w ws
            (le_of_not_gt v w (ground (arith, e))) kv)
    go Ordering.eq e =
        rw (min_from, e)
          (keep_first at_least version_le_refl at_least_trans (min_from v ws) v w ws
            (le_of_not_gt v w (ground (arith, e))) kv)
    go Ordering.gt e =
        rw (min_from, e)
          (keep_rest at_least version_le_refl at_least_trans (min_from w ws) v w ws (le_of_gt v w e)
            kw)

pub min_from_lem : (v : Version) (vs : List Version) → IsExtreme at_least (min_from v vs) (v ∷ vs)
unfolding min_from
min_from_lem v [] = single at_least version_le_refl at_least_trans v
min_from_lem v (w ∷ ws) = min_step v w ws (min_from_lem v ws) (min_from_lem w ws)
