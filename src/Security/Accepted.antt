-- ===== src/Security/Accepted.antt =====
-- What the validators of abi/src/security.rs let through.
use skylet.Prelude.{
  ℕ, ◌≤◌, ◌<◌, ◌≡◌, ◌↔◌, refl, Bool, true, false, not, ◌||◌, [], ◌∷◌, arith, is_ok, ok, err, ◌==◌,
  if◌then◌else◌,
}
use skylet.Prelude.Lists.{any, all}
use skylet.Prelude.Texts.{Text, codes, starts_with, has_text}
use skylet.Prelude.Texts.Search.{has_text_iff, Within}
use skylet.Security.{input_too_long, invalid_utf8}
use skylet.Security.Validation.{
  validate_file_path, validate_http_header, bad_length, len, has_char, max_input_length,
}

-- No character of a text satisfies a test.
lacks_iff : (test : ℕ → Bool) (s : Text) → (any test s ≡ false) ↔ (all (λ c. not (test c)) s ≡ true)
lacks_iff test [] = ground arith
lacks_iff test (c ∷ s) = ground (arith, lacks_iff test s)

-- The bytes of the text are between 1 and the longest input.
abbrev pub HasLength : Text → Type 0
HasLength s = (0 < len s) × (len s ≤ max_input_length)

bad_length_iff : (s : Text) → (bad_length max_input_length s ≡ false) ↔ HasLength s
bad_length_iff s = ground arith

-- Four early returns.
guards :
    {A E : Type 0} (a b c d : Bool) (e f : E) (s : A)
    → (is_ok
          (if a then err e else if b then err f else if c then err f else if d then err f else ok s)
        ≡ true)
      ↔ ((a ≡ false) × (b ≡ false) × (c ≡ false) × (d ≡ false))
guards true b c d e f s = ground arith
guards false true c d e f s = ground arith
guards false false true d e f s = ground arith
guards false false false true e f s = ground arith
guards false false false false e f s = ground arith

absent_iff : (b : Bool) → (b ≡ false) ↔ (¬ (b ≡ true))
absent_iff true = (λ h. cc, λ h. absurd (h refl))
absent_iff false = (λ h k. cc, λ h. refl)

-- A file path is accepted exactly when it has a length in the bounds, no two dots in a row anywhere, no
-- slash in front, and no null character.
pub validate_file_path_iff :
    (path : Text)
    → (is_ok (validate_file_path path) ≡ true) ↔ (
        HasLength path
        × (¬ Within (codes "..") path)
        × (starts_with (codes "/") path ≡ false)
        × (all (λ c. not (c == 0)) path ≡ true))
unfolding validate_file_path
validate_file_path_iff path =
    let rule =
      guards (bad_length max_input_length path) (has_text (codes "..") path)
        (starts_with (codes "/") path) (has_char 0 path) input_too_long invalid_utf8 path in
    let dots = has_text_iff (codes "..") path in
    let nulls = lacks_iff (λ c. c == 0) path in
    (
      λ h.
          let (size, no_dots, relative, no_null) = rule.0 h in
          (
            (bad_length_iff path).0 size,
            λ w. (absent_iff _).0 no_dots (dots.1 w),
            relative,
            nulls.0 no_null,
          ),
      λ h.
          let (size, no_dots, relative, no_null) = h in
          rule.1 (
            (bad_length_iff path).1 size,
            (absent_iff _).1 (λ k. no_dots (dots.0 k)),
            relative,
            nulls.1 no_null,
          ),
    )

header_chars :
    (s : Text)
    → ((has_char 13 s || has_char 10 s) || has_char 0 s)
      ≡ not (all (λ c. not ((c == 13) || ((c == 10) || (c == 0)))) s)
header_chars [] = refl
header_chars (c ∷ s) = ground (arith, header_chars s)

-- A header value is accepted exactly when it has a length in the bounds and no carriage return, line
-- feed or null character.
pub validate_http_header_iff :
    (value : Text)
    → (is_ok (validate_http_header value) ≡ true)
      ↔ (HasLength value × (all (λ c. not ((c == 13) || ((c == 10) || (c == 0)))) value ≡ true))
unfolding validate_http_header
validate_http_header_iff value = ground (arith, bad_length_iff value, header_chars value)
