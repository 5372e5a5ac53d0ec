-- ===== src/Version/Equality.antt =====
-- The derived equality of versions in abi/src/dependencies/version.rs decides equality.
use skylet.Prelude.{◌≡◌, ◌↔◌, true, Option, some, List, [], ◌∷◌, arith}
use skylet.Prelude.Texts.{Text, text_eq, text_eq_iff}
use skylet.Version.{
  PrereleaseIdentifier, alpha, Prerelease, Version, eq_identifier, eq_identifiers, eq_option,
  eq_version,
}

eq_identifier_iff : (a b : PrereleaseIdentifier) → (eq_identifier a b ≡ true) ↔ (a ≡ b)
unfolding eq_identifier
eq_identifier_iff (alpha a) (alpha b) = ground (arith, text_eq_iff a b)
eq_identifier_iff _ _ = ground arith

eq_identifiers_iff : (a b : List PrereleaseIdentifier) → (eq_identifiers a b ≡ true) ↔ (a ≡ b)
unfolding eq_identifiers
eq_identifiers_iff [] [] = ground arith
eq_identifiers_iff (i ∷ is) (j ∷ js) =
    ground (arith, eq_identifier_iff i j, eq_identifiers_iff is js)
eq_identifiers_iff _ _ = ground arith

eq_pre_iff :
    (a b : Option Prerelease)
    → (eq_option (λ p q. eq_identifiers p.identifiers q.identifiers) a b ≡ true) ↔ (a ≡ b)
eq_pre_iff (some a) (some b) = ground (arith, eq_identifiers_iff a.identifiers b.identifiers)
eq_pre_iff _ _ = ground arith

eq_build_iff : (a b : Option Text) → (eq_option text_eq a b ≡ true) ↔ (a ≡ b)
eq_build_iff (some a) (some b) = ground (arith, text_eq_iff a b)
eq_build_iff _ _ = ground arith

-- `==` on versions holds exactly for equal ones, build metadata included.
pub eq_version_iff : (a b : Version) → (eq_version a b ≡ true) ↔ (a ≡ b)
unfolding eq_version
eq_version_iff a b = ground (arith, eq_pre_iff a.pre b.pre, eq_build_iff a.build b.build)
