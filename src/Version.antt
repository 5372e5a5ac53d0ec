-- ===== src/Version.antt =====
-- abi/src/dependencies/version.rs: semantic versions. Strings are texts of scalar values.
pub mod Number
pub mod Digits
pub mod Identifiers
pub mod RoundTrip
pub mod Order
pub mod Equality
use Number.{parse_u64, print_u64}
use skylet.Prelude.{
  ℕ, zero, suc, ◌+◌, ◌%◌, ltb, Bool, true, false, ◌&&◌, ◌||◌, not, Option, none, some, List, [],
  ◌∷◌, ◌++◌, map, compare, Ordering, ◌==◌, if◌then◌else◌, Result, ok, err, ◌>>=◌, u64_mod,
}
use skylet.Prelude.Lists.{length, all}
use skylet.Prelude.Order.{or_else, zip_cmp}
use skylet.Prelude.Texts.{
  Text, codes, text_eq, text_cmp, is_ascii_digit, is_ascii_alphanumeric, trim, split_once, split,
  join,
}

pub data PrereleaseIdentifier : Type 0 where
  numeric : ℕ → PrereleaseIdentifier
  alpha : Text → PrereleaseIdentifier

pub record Prerelease : Type 0 where
  pub identifiers : List PrereleaseIdentifier

pub record Version : Type 0 where
  pub major : ℕ
  pub minor : ℕ
  pub patch : ℕ
  pub pre : Option Prerelease
  pub build : Option Text

-- The fields of each error are the input and the reason.
pub data VersionError : Type 0 where
  invalid_format invalid_prerelease invalid_build_metadata : Text → Text → VersionError

-- `PrereleaseIdentifier::parse`
unfoldable pub parse_identifier : Text → Result PrereleaseIdentifier VersionError
parse_identifier [] = err (invalid_prerelease [] (codes "identifier cannot be empty"))
parse_identifier (c ∷ t) =
    let s = c ∷ t in
    if all is_ascii_digit s
    then if ltb 1 (length s) && (c == 48)
      then err (invalid_prerelease s (codes "numeric identifier cannot have leading zeros"))
      else elim (parse_u64 s) [
        | some n ↦ ok (numeric n)
        | none ↦ err (invalid_prerelease s (codes "numeric identifier overflow"))
      ]
    else if not (all (λ d. is_ascii_alphanumeric d || (d == 45)) s)
    then err (invalid_prerelease s (codes "identifier must be alphanumeric or hyphen"))
    else ok (alpha s)

-- `collect::<Result<Vec<_>, _>>`: the first error ends it.
unfoldable pub parse_identifiers : List Text → Result (List PrereleaseIdentifier) VersionError
parse_identifiers [] = ok []
parse_identifiers (s ∷ ss) =
    let rest = parse_identifiers ss in do i ← parse_identifier s; is ← rest; ok (i ∷ is)

-- `Prerelease::parse`
unfoldable pub parse_prerelease : Text → Result Prerelease VersionError
parse_prerelease [] = err (invalid_prerelease [] (codes "pre-release cannot be empty"))
parse_prerelease (c ∷ t) = do
  is ← parse_identifiers (split 46 (c ∷ t))
  ok (record { identifiers = is })

-- The build metadata behind `+`, and the part before it.
unfoldable pub parse_build : Text → Result (Text × Option Text) VersionError
unfolding text_eq
parse_build s = elim (split_once 43 s) [
  | none ↦ ok (s, none)
  | some (v, b) ↦
      if text_eq b []
      then err (invalid_build_metadata s (codes "build metadata cannot be empty after '+'"))
      else ok (v, some b)
]

-- The pre-release behind `-`, and the core version before it.
unfoldable pub parse_pre : Text → Text → Result (Text × Option Prerelease) VersionError
unfolding text_eq
parse_pre whole s = elim (split_once 45 s) [
  | none ↦ ok (s, none)
  | some (v, p) ↦
      if text_eq p []
      then err (invalid_prerelease whole (codes "pre-release cannot be empty after '-'"))
      else do pre ← parse_prerelease p; ok (v, some pre)
]

abbrev number_or : Text → Text → Text → Result ℕ VersionError
number_or whole what part = elim (parse_u64 part) [
  | some n ↦ ok n
  | none ↦ err (invalid_format whole (what ++ part))
]

-- The three numbers between dots.
unfoldable pub parse_core :
    Text → Option Prerelease → Option Text → List Text → Result Version VersionError
parse_core whole pre build (a ∷ b ∷ c ∷ []) = do
  major ← number_or whole (codes "invalid major version: ") a
  minor ← number_or whole (codes "invalid minor version: ") b
  patch ← number_or whole (codes "invalid patch version: ") c
  ok (record { major = major; minor = minor; patch = patch; pre = pre; build = build })
parse_core whole pre build parts = err (
    invalid_format whole
      (codes "expected major.minor.patch, got " ++ (print_u64 (length parts) ++ codes " parts")))

-- `Version::parse`
unfoldable pub parse_version : Text → Result Version VersionError
unfolding text_eq
parse_version version_str =
    let s = trim version_str in
    if text_eq s [] then err (invalid_format s (codes "version string cannot be empty")) else do
      built ← parse_build s
      core ← parse_pre s built.0
      parse_core s core.1 built.1 (split 46 core.0)

-- `Display`
unfoldable pub print_identifier : PrereleaseIdentifier → Text
print_identifier (numeric n) = print_u64 n
print_identifier (alpha s) = s

unfoldable pub print_prerelease : Prerelease → Text
print_prerelease p = join (46 ∷ []) (map print_identifier p.identifiers)

abbrev print_behind {ℓ} : {A : Type ℓ} → ℕ → (A → Text) → Option A → Text
print_behind c f none = []
print_behind c f (some a) = c ∷ f a

unfoldable pub print_version : Version → Text
print_version v =
    print_u64 v.major
    ++ 46
      ∷ (print_u64 v.minor
          ++ 46
            ∷ (print_u64 v.patch
                ++ (print_behind 45 print_prerelease v.pre ++ print_behind 43 (λ b. b) v.build)))

-- `Ord for PrereleaseIdentifier`
unfoldable pub cmp_identifier : PrereleaseIdentifier → PrereleaseIdentifier → Ordering
unfolding text_cmp
cmp_identifier (numeric a) (numeric b) = compare a b
cmp_identifier (numeric a) (alpha b) = Ordering.lt
cmp_identifier (alpha a) (numeric b) = Ordering.gt
cmp_identifier (alpha a) (alpha b) = text_cmp a b

-- `Ord for Prerelease`
unfoldable pub cmp_prerelease : Prerelease → Prerelease → Ordering
unfolding zip_cmp cmp_identifier
cmp_prerelease a b =
    or_else (zip_cmp cmp_identifier a.identifiers b.identifiers)
      (compare (length a.identifiers) (length b.identifiers))

-- A release has a higher precedence than its pre-releases.
unfoldable pub cmp_pre : Option Prerelease → Option Prerelease → Ordering
unfolding cmp_prerelease
cmp_pre none none = Ordering.eq
cmp_pre none (some b) = Ordering.gt
cmp_pre (some a) none = Ordering.lt
cmp_pre (some a) (some b) = cmp_prerelease a b

-- `Ord for Version`: the build metadata takes no part.
unfoldable pub cmp_version : Version → Version → Ordering
unfolding cmp_pre
cmp_version a b =
    or_else (compare a.major b.major)
      (or_else (compare a.minor b.minor) (or_else (compare a.patch b.patch) (cmp_pre a.pre b.pre)))

-- `Version::new`
abbrev pub new_version : ℕ → ℕ → ℕ → Version
new_version major minor patch = record {
  major = major;
  minor = minor;
  patch = patch;
  pre = none;
  build = none;
}

unfoldable pub with_pre : Version → Prerelease → Version
with_pre v pre = record v { pre = some pre }

unfoldable pub with_build : Version → Text → Version
with_build v build = record v { build = some build }

unfoldable pub is_prerelease : Version → Bool
is_prerelease v = elim v.pre [ none ↦ false | some _ ↦ true ]

unfoldable pub is_stable : Version → Bool
is_stable v = elim v.pre [ none ↦ true | some _ ↦ false ]

unfoldable pub base_version : Version → Version
base_version v = new_version v.major v.minor v.patch

-- The increments wrap around at 2 ^ 64, as in a release build.
unfoldable pub bump_major : Version → Version
bump_major v = new_version ((v.major + 1) % u64_mod) 0 0

unfoldable pub bump_minor : Version → Version
bump_minor v = new_version v.major ((v.minor + 1) % u64_mod) 0

unfoldable pub bump_patch : Version → Version
bump_patch v = new_version v.major v.minor ((v.patch + 1) % u64_mod)

unfoldable pub is_compatible_with : Version → Version → Bool
is_compatible_with v w = (v.major == w.major) && ltb 0 v.major

-- The derived `PartialEq`, field by field: it reads the build metadata too.
unfoldable pub eq_identifier : PrereleaseIdentifier → PrereleaseIdentifier → Bool
unfolding text_eq
eq_identifier (numeric a) (numeric b) = a == b
eq_identifier (alpha a) (alpha b) = text_eq a b
eq_identifier _ _ = false

unfoldable pub eq_identifiers : List PrereleaseIdentifier → List PrereleaseIdentifier → Bool
eq_identifiers [] [] = true
eq_identifiers (i ∷ is) (j ∷ js) = eq_identifier i j && eq_identifiers is js
eq_identifiers _ _ = false

abbrev eq_option {ℓ} : {A : Type ℓ} → (A → A → Bool) → Option A → Option A → Bool
eq_option e none none = true
eq_option e (some a) (some b) = e a b
eq_option e _ _ = false

unfoldable pub eq_version : Version → Version → Bool
unfolding eq_identifier eq_identifiers
eq_version a b =
    (a.major == b.major)
    && (a.minor == b.minor)
    && (a.patch == b.patch)
    && eq_option (λ p q. eq_identifiers p.identifiers q.identifiers) a.pre b.pre
    && eq_option text_eq a.build b.build
