-- ===== src/AbiCompat.antt =====
-- abi/src/abi_compat.rs: versions of the plugin interface, and which loaders a plugin runs under.
pub mod Range
use skylet.Prelude.{
  ℕ, Bool, true, false, not, ◌&&◌, Option, none, some, List, [], ◌∷◌, ◌++◌, ltb, ◌==◌,
  if◌then◌else◌, Result, ok, err, ◌>>=◌,
}
use skylet.Prelude.Texts.{Text, codes, split}
use skylet.Version.Number.{parse_u64, print_u64}

pub record SemanticVersion : Type 0 where
  pub major : ℕ
  pub minor : ℕ
  pub patch : ℕ

abbrev pub new_abi : ℕ → ℕ → ℕ → SemanticVersion
new_abi major minor patch = record { major = major; minor = minor; patch = patch }

pub data CompatibilityConstraint : Type 0 where
  exact same_major same_minor any_version : CompatibilityConstraint

pub data AbiVersionError : Type 0 where
  invalid_format : Text → Text → AbiVersionError
  version_too_old : SemanticVersion → SemanticVersion → SemanticVersion → AbiVersionError
  version_too_new : SemanticVersion → SemanticVersion → SemanticVersion → AbiVersionError
  constraint_violation :
      SemanticVersion → SemanticVersion → CompatibilityConstraint → AbiVersionError

abbrev pub u32_mod : ℕ
u32_mod = 4294967296

-- `str::parse::<u32>`: the values of longer digits only grow, so the test can stand at the end.
unfoldable pub parse_u32 : Text → Option ℕ
parse_u32 s = elim (parse_u64 s) [ none ↦ none | some n ↦ if ltb n u32_mod then some n else none ]

abbrev pub or_invalid : Text → Option ℕ → Result ℕ AbiVersionError
or_invalid s none = err (invalid_format s (codes "major.minor.patch"))
or_invalid s (some n) = ok n

unfoldable pub parse_part : Text → Text → Result ℕ AbiVersionError
unfolding parse_u32
parse_part version_str part = or_invalid version_str (parse_u32 part)

abbrev pub abi_of_parts : Text → List Text → Result SemanticVersion AbiVersionError
abi_of_parts s (a ∷ b ∷ c ∷ []) = do
  let version_part = parse_part s
  major ← version_part a
  minor ← version_part b
  patch ← version_part c
  ok (new_abi major minor patch)
abi_of_parts s _ = err (invalid_format s (codes "major.minor.patch"))

unfoldable pub parse_abi : Text → Result SemanticVersion AbiVersionError
unfolding parse_part
parse_abi version_str = abi_of_parts version_str (split 46 version_str)

unfoldable pub to_string_version : SemanticVersion → Text
to_string_version v = print_u64 v.major ++ 46 ∷ (print_u64 v.minor ++ 46 ∷ print_u64 v.patch)

unfoldable pub provides : SemanticVersion → SemanticVersion → Bool
provides v required =
    if not (v.major == required.major)
    then false
    else if ltb v.minor required.minor
    then false
    else true

unfoldable pub is_major_change : SemanticVersion → SemanticVersion → Bool
is_major_change v other = not (v.major == other.major)

unfoldable pub is_minor_change : SemanticVersion → SemanticVersion → Bool
is_minor_change v other = (v.major == other.major) && not (v.minor == other.minor)

unfoldable pub is_patch_change : SemanticVersion → SemanticVersion → Bool
is_patch_change v other =
    (v.major == other.major) && ((v.minor == other.minor) && not (v.patch == other.patch))

-- The derived order: by the fields, in the order in which they are declared.
unfoldable pub abi_lt : SemanticVersion → SemanticVersion → Bool
abi_lt v w =
    if v.major == w.major
    then (if v.minor == w.minor then ltb v.patch w.patch else ltb v.minor w.minor)
    else ltb v.major w.major

abbrev pub abi_eq : SemanticVersion → SemanticVersion → Bool
abi_eq v w = (v.major == w.major) && ((v.minor == w.minor) && (v.patch == w.patch))

unfoldable pub is_satisfied : CompatibilityConstraint → SemanticVersion → SemanticVersion → Bool
is_satisfied exact required provided = abi_eq required provided
is_satisfied same_major required provided = required.major == provided.major
is_satisfied same_minor required provided =
    (required.major == provided.major) && (required.minor == provided.minor)
is_satisfied any_version required provided = true

pub record AbiCompatibility : Type 0 where
  pub plugin_version : SemanticVersion
  pub min_loader_version : SemanticVersion
  pub max_loader_version : Option SemanticVersion
  pub constraint : CompatibilityConstraint
  pub breaking_changes : List Text
  pub deprecated_features : List Text

abbrev pub new_compatibility : SemanticVersion → SemanticVersion → AbiCompatibility
new_compatibility plugin_version min_loader_version = record {
  plugin_version = plugin_version;
  min_loader_version = min_loader_version;
  max_loader_version = none;
  constraint = same_major;
  breaking_changes = [];
  deprecated_features = [];
}

abbrev pub with_max_version : SemanticVersion → AbiCompatibility → AbiCompatibility
with_max_version max_version c = record c { max_loader_version = some max_version }

abbrev pub with_constraint : CompatibilityConstraint → AbiCompatibility → AbiCompatibility
with_constraint constraint c = record c { constraint = constraint }

abbrev pub add_breaking_change : Text → AbiCompatibility → AbiCompatibility
add_breaking_change description c = record c {
  breaking_changes = c.breaking_changes ++ description ∷ [];
}

abbrev pub add_deprecated_feature : Text → AbiCompatibility → AbiCompatibility
add_deprecated_feature feature c = record c {
  deprecated_features = c.deprecated_features ++ feature ∷ [];
}

abbrev pub above_max : SemanticVersion → Option SemanticVersion → Bool
above_max loader_version none = false
above_max loader_version (some max_version) = abi_lt max_version loader_version

abbrev max_or : SemanticVersion → Option SemanticVersion → SemanticVersion
max_or v none = v
max_or v (some w) = w

unfoldable pub check_compatible :
    AbiCompatibility → SemanticVersion → Result (Unit {0}) AbiVersionError
unfolding abi_lt is_satisfied
check_compatible c loader_version =
    if abi_lt loader_version c.min_loader_version
    then err (version_too_old c.plugin_version c.min_loader_version loader_version)
    else if above_max loader_version c.max_loader_version
    then err (
        version_too_new c.plugin_version (max_or loader_version c.max_loader_version)
          loader_version)
    else if not (is_satisfied c.constraint c.plugin_version loader_version)
    then err (constraint_violation c.plugin_version loader_version c.constraint)
    else ok tt
