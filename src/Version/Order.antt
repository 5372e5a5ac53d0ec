-- ===== src/Version/Order.antt =====
-- The order of versions (abi/src/dependencies/version.rs, the three `Ord` instances) is total.
use skylet.Prelude.{◌≡◌, ◌↔◌, Option, some, Ordering, arith}
use skylet.Prelude.Order.{IsOrder, flip, zip_cmp-eq-lex_cmp, lex_cmp, lex_cmp-IsOrder}
use skylet.Prelude.Texts.{text_cmp-IsOrder}
use skylet.Version.{
  PrereleaseIdentifier, alpha, Prerelease, Version, cmp_identifier, cmp_prerelease, cmp_pre,
  cmp_version,
}

identifier_trans :
    (a b c : PrereleaseIdentifier)
    → cmp_identifier a b ≡ Ordering.lt
    → cmp_identifier b c ≡ Ordering.lt
    → cmp_identifier a c ≡ Ordering.lt
unfolding cmp_identifier
identifier_trans (alpha a) (alpha b) (alpha c) p q = text_cmp-IsOrder.trans a b c p q
identifier_trans _ _ _ p q = ground arith

identifier_equal : (a b : PrereleaseIdentifier) → (cmp_identifier a b ≡ Ordering.eq) ↔ (a ≡ b)
unfolding cmp_identifier
identifier_equal (alpha a) (alpha b) = ground (arith, text_cmp-IsOrder.equal a b)
identifier_equal _ _ = ground arith

identifier_flips : (a b : PrereleaseIdentifier) → cmp_identifier b a ≡ flip (cmp_identifier a b)
unfolding cmp_identifier
identifier_flips (alpha a) (alpha b) = text_cmp-IsOrder.flips a b
identifier_flips _ _ = ground arith

-- Identifiers are totally ordered, and only equal ones compare as equal.
pub cmp_identifier-IsOrder : IsOrder cmp_identifier
cmp_identifier-IsOrder = record {
  flips = identifier_flips;
  equal = identifier_equal;
  trans = identifier_trans;
}

-- The code's loop and length test are the lexicographic order of the identifiers.
pub cmp_prerelease-eq-lex_cmp :
    (a b : Prerelease) → cmp_prerelease a b ≡ lex_cmp cmp_identifier a.identifiers b.identifiers
cmp_prerelease-eq-lex_cmp a b =
    unfold cmp_prerelease in zip_cmp-eq-lex_cmp cmp_identifier a.identifiers b.identifiers

pre-IsOrder : IsOrder (lex_cmp cmp_identifier)
pre-IsOrder = lex_cmp-IsOrder cmp_identifier cmp_identifier-IsOrder

prerelease_flips : (a b : Prerelease) → cmp_prerelease b a ≡ flip (cmp_prerelease a b)
prerelease_flips a b = ground (
  arith,
  cmp_prerelease-eq-lex_cmp a b,
  cmp_prerelease-eq-lex_cmp b a,
  pre-IsOrder.flips a.identifiers b.identifiers,
)

prerelease_equal : (a b : Prerelease) → (cmp_prerelease a b ≡ Ordering.eq) ↔ (a ≡ b)
prerelease_equal a b =
    ground (arith, cmp_prerelease-eq-lex_cmp a b, pre-IsOrder.equal a.identifiers b.identifiers)

prerelease_trans :
    (a b c : Prerelease)
    → cmp_prerelease a b ≡ Ordering.lt
    → cmp_prerelease b c ≡ Ordering.lt
    → cmp_prerelease a c ≡ Ordering.lt
prerelease_trans a b c p q = ground (
  arith,
  cmp_prerelease-eq-lex_cmp a b,
  cmp_prerelease-eq-lex_cmp b c,
  cmp_prerelease-eq-lex_cmp a c,
  pre-IsOrder.trans a.identifiers b.identifiers c.identifiers,
)

pre_flips : (a b : Option Prerelease) → cmp_pre b a ≡ flip (cmp_pre a b)
unfolding cmp_pre
pre_flips (some a) (some b) = prerelease_flips a b
pre_flips _ _ = ground arith

pre_equal : (a b : Option Prerelease) → (cmp_pre a b ≡ Ordering.eq) ↔ (a ≡ b)
unfolding cmp_pre
pre_equal (some a) (some b) = ground (arith, prerelease_equal a b)
pre_equal _ _ = ground arith

pre_trans :
    (a b c : Option Prerelease)
    → cmp_pre a b ≡ Ordering.lt
    → cmp_pre b c ≡ Ordering.lt
    → cmp_pre a c ≡ Ordering.lt
unfolding cmp_pre
pre_trans (some a) (some b) (some c) p q = prerelease_trans a b c p q
pre_trans _ _ _ p q = ground arith

-- The parts of a version that its precedence reads.
pub record SamePrecedence (a b : Version) : Type 0 where
  pub major : a.major ≡ b.major
  pub minor : a.minor ≡ b.minor
  pub patch : a.patch ≡ b.patch
  pub pre : a.pre ≡ b.pre

-- Comparing in the other direction gives the reverse result.
pub cmp_version_flips : (a b : Version) → cmp_version b a ≡ flip (cmp_version a b)
unfolding cmp_version
cmp_version_flips a b = ground (arith, pre_flips a.pre b.pre)

-- Two versions compare as equal exactly when all but their build metadata agree.
pub cmp_version-eq_iff : (a b : Version) → (cmp_version a b ≡ Ordering.eq) ↔ SamePrecedence a b
unfolding cmp_version
cmp_version-eq_iff a b = ground (arith, pre_equal a.pre b.pre)

-- `<` on versions is transitive.
pub cmp_version_trans :
    (a b c : Version)
    → cmp_version a b ≡ Ordering.lt
    → cmp_version b c ≡ Ordering.lt
    → cmp_version a c ≡ Ordering.lt
unfolding cmp_version
cmp_version_trans a b c p q =
    ground (arith, pre_trans a.pre b.pre c.pre, pre_equal a.pre b.pre, pre_equal b.pre c.pre)
