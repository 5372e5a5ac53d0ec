-- ===== src/Version/RoundTrip.antt =====
-- Parsing a printed version gives the version back (`Display` and `Version::parse` of
-- abi/src/dependencies/version.rs).
use skylet.Prelude.{
  ℕ, ◌<◌, ◌≡◌, ◌≢◌, refl, ap, ◌∙◌, Bool, true, ◌||◌, not, Option, none, some, [], ◌∷◌, ◌++◌, arith,
  ◌==◌, ok, u64_mod,
}
use skylet.Prelude.Lists.{all, All, all_mono, all-append}
use skylet.Prelude.Texts.{
  Text, is_ascii_digit, is_whitespace, trim_start, trim_end, trim, split, text_eq_iff,
}
use skylet.Prelude.Texts.Laws.{
  Lacks, HasNoSpace, split_once-Lacks, split_once-append, split-Lacks, split-append,
  trim_end-append, trim_end-HasNoSpace,
}
use mathlib.Core.List.{append-nil, append_assoc}
use skylet.Version.{
  Prerelease, Version, parse_build, parse_pre, parse_core, parse_version, print_prerelease,
  print_version,
}
use skylet.Version.Identifiers.{
  ValidIdentifier, is_pre_char, parse_prerelease-print_prerelease, print_prerelease-chars,
}
use skylet.Version.Number.{print_u64}
use skylet.Version.Digits.{printed, parse_u64-print_u64, all_digits}

abbrev pub ValidPre : Option Prerelease → Type 0
ValidPre none = Unit
ValidPre (some p) = (p.identifiers ≢ []) × All ValidIdentifier p.identifiers

-- Build metadata is any text that is not empty and has no white space at its end.
abbrev pub ValidBuild : Option Text → Type 0
ValidBuild none = Unit
ValidBuild (some b) = (b ≢ []) × (trim_end b ≡ b)

pub record IsValid (v : Version) : Type 0 where
  pub major : v.major < u64_mod
  pub minor : v.minor < u64_mod
  pub patch : v.patch < u64_mod
  pub pre : ValidPre v.pre
  pub build : ValidBuild v.build

abbrev is_core_char : ℕ → Bool
is_core_char d = is_ascii_digit d || (d == 46)

abbrev core_text : Version → Text
core_text v = print_u64 v.major ++ 46 ∷ (print_u64 v.minor ++ 46 ∷ print_u64 v.patch)

abbrev pre_text : Option Prerelease → Text
pre_text none = []
pre_text (some p) = 45 ∷ print_prerelease p

abbrev build_text : Option Text → Text
build_text none = []
build_text (some b) = 43 ∷ b

print_version-parts :
    (v : Version) → print_version v ≡ core_text v ++ pre_text v.pre ++ build_text v.build
unfolding print_version
print_version-parts v = simp append_assoc

core_chars : (v : Version) → IsValid v → all is_core_char (core_text v) ≡ true
core_chars v h = ground (
  arith,
  all-append is_core_char (print_u64 v.major) (46 ∷ (print_u64 v.minor ++ 46 ∷ print_u64 v.patch)),
  all-append is_core_char (print_u64 v.minor) (46 ∷ print_u64 v.patch),
  digits_are_core v.major h.major,
  digits_are_core v.minor h.minor,
  digits_are_core v.patch h.patch,
)
  where
    digits_are_core : (n : ℕ) → n < u64_mod → all is_core_char (print_u64 n) ≡ true
    digits_are_core n k =
        all_mono is_ascii_digit is_core_char (print_u64 n) (λ d e. ground arith) (all_digits n k)

core-Lacks :
    (v : Version)
    → IsValid v
    → Lacks 43 (core_text v) × Lacks 45 (core_text v) × HasNoSpace (core_text v)
core-Lacks v h =
    let k = core_chars v h in
    (
      all_mono is_core_char _ (core_text v) (λ d e. ground arith) k,
      all_mono is_core_char _ (core_text v) (λ d e. ground arith) k,
      all_mono is_core_char _ (core_text v) (λ d e. ground arith) k,
    )

pre-Lacks : (o : Option Prerelease) → ValidPre o → Lacks 43 (pre_text o) × HasNoSpace (pre_text o)
pre-Lacks none h = (refl, refl)
pre-Lacks (some p) h =
    let k = print_prerelease-chars p h.1 in
    (
      all_mono is_pre_char (λ d. not (d == 43)) (print_prerelease p) (λ d e. ground arith) k,
      all_mono is_pre_char (λ d. not (is_whitespace d)) (print_prerelease p) (λ d e. ground arith)
          k,
    )

split_core :
    (v : Version)
    → IsValid v
    → split 46 (core_text v) ≡ print_u64 v.major ∷ print_u64 v.minor ∷ print_u64 v.patch ∷ []
split_core v h =
    split-append 46 (print_u64 v.major) _ (no_dots v.major h.major)
    ∙ ap (λ ws. print_u64 v.major ∷ ws)
        (split-append 46 (print_u64 v.minor) _ (no_dots v.minor h.minor)
          ∙ ap (λ ws. print_u64 v.minor ∷ ws)
              (split-Lacks 46 (print_u64 v.patch) (no_dots v.patch h.patch)))
  where
    no_dots : (n : ℕ) → n < u64_mod → Lacks 46 (print_u64 n)
    no_dots n k = all_mono is_ascii_digit _ (print_u64 n) (λ d e. ground arith) (all_digits n k)

parse_core_text :
    (whole : Text) (v : Version)
    → IsValid v
    → parse_core whole v.pre v.build
        (print_u64 v.major ∷ print_u64 v.minor ∷ print_u64 v.patch ∷ [])
      ≡ ok v
unfolding parse_core
parse_core_text whole v h = ground (
  arith,
  parse_u64-print_u64 v.major h.major,
  parse_u64-print_u64 v.minor h.minor,
  parse_u64-print_u64 v.patch h.patch,
)

parse_build_text :
    (s : Text) (o : Option Text)
    → Lacks 43 s
    → ValidBuild o
    → parse_build (s ++ build_text o) ≡ ok (s, o)
unfolding parse_build
parse_build_text s none h k = rw append-nil (ground (arith, split_once-Lacks 43 s h))
parse_build_text s (some b) h k = ground (arith, split_once-append 43 s b h, k.0, text_eq_iff b [])

parse_pre_text :
    (whole s : Text) (o : Option Prerelease)
    → Lacks 45 s
    → ValidPre o
    → parse_pre whole (s ++ pre_text o) ≡ ok (s, o)
unfolding parse_pre
parse_pre_text whole s none h k = rw append-nil (ground (arith, split_once-Lacks 45 s h))
parse_pre_text whole s (some p) h k =
    let r = parse_prerelease-print_prerelease p k.0 k.1 in
    ground (
      arith,
      split_once-append 45 s (print_prerelease p) h,
      r.0,
      r.1,
      text_eq_iff (print_prerelease p) [],
    )

trim_end_parts :
    (s : Text) (o : Option Text)
    → HasNoSpace s
    → ValidBuild o
    → trim_end (s ++ build_text o) ≡ s ++ build_text o
trim_end_parts s none h k = rw append-nil (trim_end-HasNoSpace s h)
trim_end_parts s (some b) h k =
    trim_end-append s (43 ∷ b) (λ e. ground arith) (trim_end-append (43 ∷ []) b k.0 k.1)

begins_with_digit :
    (v : Version)
    → IsValid v
    → (c : ℕ) × (t : Text) × (print_version v ≡ c ∷ t) × (is_ascii_digit c ≡ true)
unfolding print_version
begins_with_digit v h =
    let r = printed v.major h.major in
    let rest : Text =
      46
      ∷ (print_u64 v.minor ++ 46 ∷ (print_u64 v.patch ++ (pre_text v.pre ++ build_text v.build))) in
    (r.first, r.others ++ rest, ap (λ t. t ++ rest) r.shape, r.digit)

trim_start-digit : (c : ℕ) (t : Text) → is_ascii_digit c ≡ true → trim_start (c ∷ t) ≡ c ∷ t
unfolding trim_start
trim_start-digit c t h = ground arith

-- Printed versions have no white space at their ends.
trim-print_version : (v : Version) → IsValid v → trim (print_version v) ≡ print_version v
unfolding trim
trim-print_version v h =
    let d = begins_with_digit v h in
    let start : trim_start (print_version v) ≡ print_version v =
      rw d.2 (trim_start-digit d.0 d.1 d.3) in
    ap trim_end start
    ∙ rw (print_version-parts v)
        (trim_end_parts (core_text v ++ pre_text v.pre) v.build clean h.build)
  where
    clean : HasNoSpace (core_text v ++ pre_text v.pre)
    clean = ground (
      arith,
      all-append (λ d. not (is_whitespace d)) (core_text v) (pre_text v.pre),
      (core-Lacks v h).2,
      (pre-Lacks v.pre h.pre).1,
    )

-- Parsing a printed version gives the version back, for every valid version: numbers of 64 bits,
-- identifiers as semantic versioning has them, and build metadata that is not empty and does not
-- end in white space.
pub parse_version-print_version : (v : Version) → IsValid v → parse_version (print_version v) ≡ ok v
unfolding parse_version
parse_version-print_version v h =
    let s = print_version v in
    let d = begins_with_digit v h in
    let built : parse_build s ≡ ok (core_text v ++ pre_text v.pre, v.build) =
      rw (print_version-parts v)
        (parse_build_text (core_text v ++ pre_text v.pre) v.build no_plus h.build) in
    ground (
      arith,
      trim-print_version v h,
      d.2,
      text_eq_iff s [],
      built,
      parse_pre_text s (core_text v) v.pre (core-Lacks v h).1 h.pre,
      split_core v h,
      parse_core_text s v h,
    )
  where
    no_plus : Lacks 43 (core_text v ++ pre_text v.pre)
    no_plus = ground (
      arith,
      all-append (λ d. not (d == 43)) (core_text v) (pre_text v.pre),
      (core-Lacks v h).0,
      (pre-Lacks v.pre h.pre).0,
    )
