-- ===== src/AbiCompat/Range.antt =====
-- What the checks of abi/src/abi_compat.rs accept, and that its versions print and parse.
use skylet.Prelude.{ℕ, ◌<◌, ◌≤◌, ◌≡◌, ◌⊎◌, ◌↔◌, true, ◌∷◌, ◌++◌, some, is_ok, ok, arith}
use skylet.Prelude.Lists.{all_mono}
use skylet.Prelude.Texts.{is_ascii_digit}
use skylet.Prelude.Texts.Laws.{Lacks, split-append, split-Lacks}
use skylet.Version.Number.{print_u64}
use skylet.Version.Digits.{parse_u64-print_u64, all_digits}
use skylet.AbiCompat.{
  SemanticVersion, u32_mod, parse_abi, parse_u32, to_string_version, new_compatibility,
  check_compatible,
}

-- The fields are numbers of 32 bits.
pub record Fits (v : SemanticVersion) : Type 0 where
  pub major : v.major < u32_mod
  pub minor : v.minor < u32_mod
  pub patch : v.patch < u32_mod

no_dots : (n : ℕ) → n < u32_mod → Lacks 46 (print_u64 n)
no_dots n h =
    all_mono is_ascii_digit _ (print_u64 n) (λ d e. ground arith) (all_digits n (omega arith))

parse_u32-print : (n : ℕ) → n < u32_mod → parse_u32 (print_u64 n) ≡ some n
unfolding parse_u32
parse_u32-print n h = ground (arith, parse_u64-print_u64 n (omega arith))

-- A version whose numbers have 32 bits is parsed back from its text.
pub parse_abi-to_string_version :
    (v : SemanticVersion) → Fits v → parse_abi (to_string_version v) ≡ ok v
unfolding parse_abi to_string_version
parse_abi-to_string_version v h =
    rw
      (split-append 46 (print_u64 v.major) (print_u64 v.minor ++ 46 ∷ print_u64 v.patch)
        (no_dots v.major h.major))
      (rw (split-append 46 (print_u64 v.minor) (print_u64 v.patch) (no_dots v.minor h.minor)) (
        rw (split-Lacks 46 (print_u64 v.patch) (no_dots v.patch h.patch)) (
          ground (
            arith,
            parse_u32-print v.major h.major,
            parse_u32-print v.minor h.minor,
            parse_u32-print v.patch h.patch,
          ))))

-- No version before another one.
abbrev pub AtLeast : SemanticVersion → SemanticVersion → Type 0
AtLeast m v =
    (m.major < v.major)
    ⊎ ((m.major ≡ v.major) × ((m.minor < v.minor) ⊎ ((m.minor ≡ v.minor) × (m.patch ≤ v.patch))))

-- With the default constraint and no maximum, exactly the loaders are accepted that have the major
-- version of the plugin and are no older than the minimum.
pub check_compatible_iff :
    (plugin least loader : SemanticVersion)
    → (is_ok (check_compatible (new_compatibility plugin least) loader) ≡ true)
      ↔ ((plugin.major ≡ loader.major) × AtLeast least loader)
unfolding check_compatible
check_compatible_iff plugin least loader = grind arith
