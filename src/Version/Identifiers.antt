-- ===== src/Version/Identifiers.antt =====
-- Pre-release identifiers of abi/src/dependencies/version.rs: which are valid, and that parsing
-- undoes printing for those.
use skylet.Prelude.{
  ℕ, zero, suc, ◌<◌, ◌≡◌, ◌≢◌, refl, Bool, true, false, ◌&&◌, ◌||◌, not, Option, none, some, List,
  [], ◌∷◌, ◌++◌, map, arith, ltb, ◌==◌, ok, u64_mod,
}
use skylet.Prelude.Lists.{length, all, All, all_mono, all-append}
use skylet.Prelude.Texts.{Text, is_ascii_digit, is_ascii_alphanumeric, trim_end, split, join}
use skylet.Prelude.Texts.Laws.{Lacks, split-join}
use skylet.Version.{
  PrereleaseIdentifier, numeric, alpha, Prerelease, Version, parse_identifier, parse_identifiers,
  parse_prerelease, print_identifier, print_prerelease,
}
use skylet.Version.Number.{print_u64, parse_u64}
use skylet.Version.Digits.{Printed, printed, parse_u64-print_u64, all_digits}

abbrev pub is_identifier_char : ℕ → Bool
is_identifier_char d = is_ascii_alphanumeric d || (d == 45)

-- Identifiers as semantic versioning has them.
abbrev pub ValidIdentifier : PrereleaseIdentifier → Type 0
ValidIdentifier (numeric n) = n < u64_mod
ValidIdentifier (alpha s) =
    (s ≢ []) × (all is_identifier_char s ≡ true) × (all is_ascii_digit s ≡ false)

abbrev pub ValidPre : Option Prerelease → Type 0
ValidPre none = Unit
ValidPre (some p) = (p.identifiers ≢ []) × All ValidIdentifier p.identifiers

-- Build metadata is any text that is not empty and has no white space at its end.
abbrev pub ValidBuild : Option Text → Type 0
ValidBuild none = Unit
ValidBuild (some b) = (b ≢ []) × (trim_end b ≡ b)

pub record IsValid (v : Version) : Type 0 where
  pub major : v.major < u64_mod
  pub minor : v.minor < u64_mod
  pub patch : v.patch < u64_mod
  pub pre : ValidPre v.pre
  pub build : ValidBuild v.build

parse_alpha :
    (s : Text)
    → s ≢ []
    → all is_identifier_char s ≡ true
    → all is_ascii_digit s ≡ false
    → parse_identifier s ≡ ok (alpha s)
unfolding parse_identifier
parse_alpha [] ne h k = absurd (ne refl)
parse_alpha (c ∷ s) ne h k = rw (k, h)

numeric_form :
    (c : ℕ) (s : Text)
    → all is_ascii_digit (c ∷ s) ≡ true
    → (ltb 1 (length (c ∷ s)) && (c == 48)) ≡ false
    → (n : ℕ) → parse_u64 (c ∷ s) ≡ some n
    → parse_identifier (c ∷ s) ≡ ok (numeric n)
unfolding parse_identifier
numeric_form c s d z n e = rw (d, z, e)

no_leading_zero :
    (n : ℕ) (r : Printed n [] (print_u64 n))
    → (ltb 1 (length (r.first ∷ r.others)) && (r.first == 48)) ≡ false
no_leading_zero zero r = rw (r.short (omega arith))
no_leading_zero (suc n) r = ground (arith, r.lead (omega arith))

-- Parsing undoes printing, for valid identifiers.
pub parse_identifier-print_identifier :
    (i : PrereleaseIdentifier) → ValidIdentifier i → parse_identifier (print_identifier i) ≡ ok i
unfolding print_identifier
parse_identifier-print_identifier (alpha s) h = parse_alpha s h.0 h.1 h.2
parse_identifier-print_identifier (numeric n) h =
    let r = printed n h in
    rw r.shape (
      numeric_form r.first r.others (ground (arith, r.digit, r.digits)) (no_leading_zero n r) n
        (rw r.shape at (parse_u64-print_u64 n h)))

digit_is_char : (d : ℕ) → is_ascii_digit d ≡ true → is_identifier_char d ≡ true
digit_is_char d h = ground arith

-- A printed identifier holds identifier characters only.
pub print_identifier-chars :
    (i : PrereleaseIdentifier)
    → ValidIdentifier i
    → all is_identifier_char (print_identifier i) ≡ true
unfolding print_identifier
print_identifier-chars (alpha s) h = h.1
print_identifier-chars (numeric n) h =
    all_mono is_ascii_digit is_identifier_char (print_u64 n) digit_is_char (all_digits n h)

pub parse_identifiers-map :
    (is : List PrereleaseIdentifier)
    → All ValidIdentifier is
    → parse_identifiers (map print_identifier is) ≡ ok is
unfolding parse_identifiers
parse_identifiers-map [] h = refl
parse_identifiers-map (i ∷ is) h =
    rw (parse_identifier-print_identifier i h.0, parse_identifiers-map is h.1)

char_is_no_dot : (d : ℕ) → is_identifier_char d ≡ true → not (d == 46) ≡ true
char_is_no_dot d h = ground arith

pub lack_dots :
    (is : List PrereleaseIdentifier)
    → All ValidIdentifier is
    → All (Lacks 46) (map print_identifier is)
lack_dots [] h = tt
lack_dots (i ∷ is) h = (
  all_mono is_identifier_char (λ d. not (d == 46)) (print_identifier i) char_is_no_dot
      (print_identifier-chars i h.0),
  lack_dots is h.1,
)

-- A joined list of identifiers parses back, once its text is not empty.
parse_joined :
    (t : Text) (is : List PrereleaseIdentifier)
    → t ≢ []
    → parse_identifiers (split 46 t) ≡ ok is
    → parse_prerelease t ≡ ok (record { identifiers = is })
parse_joined [] is ne h = absurd (ne refl)
parse_joined (c ∷ t) is ne h = unfold parse_prerelease in rw h

print_identifier-ne : (i : PrereleaseIdentifier) → ValidIdentifier i → print_identifier i ≢ []
unfolding print_identifier
print_identifier-ne (alpha s) h e = h.0 e
print_identifier-ne (numeric n) h e = ground (arith, (printed n h).shape)

append-ne : (s t : Text) → s ≢ [] → s ++ t ≢ []
append-ne [] t h e = h refl
append-ne (c ∷ s) t h e = ground arith

join-ne : (w : Text) (ws : List Text) → w ≢ [] → join (46 ∷ []) (w ∷ ws) ≢ []
unfolding join
join-ne w [] h = h
join-ne w (v ∷ ws) h = append-ne w _ h

-- Parsing undoes printing, for pre-releases of valid identifiers.
pub parse_prerelease-print_prerelease :
    (p : Prerelease)
    → p.identifiers ≢ []
    → All ValidIdentifier p.identifiers
    → (parse_prerelease (print_prerelease p) ≡ ok p) × (print_prerelease p ≢ [])
unfolding print_prerelease
parse_prerelease-print_prerelease p ne h = go p.identifiers ne h
  where
    go :
        (is : List PrereleaseIdentifier)
        → is ≢ []
        → All ValidIdentifier is
        → (parse_prerelease (join (46 ∷ []) (map print_identifier is))
            ≡ ok (record { identifiers = is }))
          × (join (46 ∷ []) (map print_identifier is) ≢ [])
    go [] ne h = absurd (ne refl)
    go (i ∷ is) ne h =
        let text =
          join-ne (print_identifier i) (map print_identifier is) (print_identifier-ne i h.0) in
        (
          parse_joined _ (i ∷ is) text (
              rw
                (split-join 46 (print_identifier i) (map print_identifier is)
                  (lack_dots (i ∷ is) h))
                (parse_identifiers-map (i ∷ is) h)),
          text,
        )

abbrev pub is_pre_char : ℕ → Bool
is_pre_char d = is_identifier_char d || (d == 46)

char_is_pre_char : (d : ℕ) → is_identifier_char d ≡ true → is_pre_char d ≡ true
char_is_pre_char d h = ground arith

join-chars :
    (is : List PrereleaseIdentifier)
    → All ValidIdentifier is
    → all is_pre_char (join (46 ∷ []) (map print_identifier is)) ≡ true
unfolding join
join-chars [] h = refl
join-chars (i ∷ []) h =
    all_mono is_identifier_char is_pre_char (print_identifier i) char_is_pre_char
      (print_identifier-chars i h.0)
join-chars (i ∷ j ∷ is) h = ground (
  arith,
  all-append is_pre_char (print_identifier i) (46 ∷ join (46 ∷ []) (map print_identifier (j ∷ is))),
  all_mono is_identifier_char is_pre_char (print_identifier i) char_is_pre_char
      (print_identifier-chars i h.0),
  join-chars (j ∷ is) h.1,
)

-- A printed pre-release holds identifier characters and dots only.
pub print_prerelease-chars :
    (p : Prerelease)
    → All ValidIdentifier p.identifiers
    → all is_pre_char (print_prerelease p) ≡ true
unfolding print_prerelease
print_prerelease-chars p h = join-chars p.identifiers h
