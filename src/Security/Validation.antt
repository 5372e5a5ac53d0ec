-- ===== src/Security/Validation.antt =====
-- `InputValidator` of abi/src/security.rs. JSON is parsed by another package, and Unicode's tables of
-- letters and control characters are parameters. Lengths are those of the UTF-8 bytes.
use skylet.Prelude.{
  ℕ, zero, suc, Bool, false, not, ◌||◌, List, [], ◌∷◌, ltb, ◌==◌, if◌then◌else◌, Result, ok, err,
  map,
}
use skylet.Prelude.Lists.{length, any, all}
use skylet.Prelude.Bits.{as_bytes}
use skylet.Prelude.Texts.{Text, codes, starts_with, has_text, is_ascii_digit, strip_prefix}
use skylet.Security.{SecurityError, input_too_long, invalid_utf8}

abbrev pub max_input_length : ℕ
max_input_length = 65536

-- `str::len`.
abbrev pub len : Text → ℕ
len s = length (as_bytes s)

abbrev pub bad_length : ℕ → Text → Bool
bad_length most s = (len s == 0) || ltb most (len s)

-- `str::contains` for one character.
abbrev pub has_char : ℕ → Text → Bool
has_char c s = any (λ d. d == c) s

abbrev starts_with_digit : Text → Bool
starts_with_digit [] = false
starts_with_digit (c ∷ s) = is_ascii_digit c

module _ (is_alphanumeric : ℕ → Bool) where
  unfoldable pub validate_sql_identifier : Text → Result Text SecurityError
  validate_sql_identifier input =
      if bad_length 128 input
      then err input_too_long
      else if starts_with_digit input
      then err invalid_utf8
      else if not (all (λ c. is_alphanumeric c || ((c == 95) || (c == 45))) input)
      then err invalid_utf8
      else ok input

-- On a host that is not Windows.
unfoldable pub validate_file_path : Text → Result Text SecurityError
validate_file_path path =
    if bad_length max_input_length path
    then err input_too_long
    else if has_text (codes "..") path
    then err invalid_utf8
    else if starts_with (codes "/") path
    then err invalid_utf8
    else if has_char 0 path
    then err invalid_utf8
    else ok path

abbrev pub dangerous_chars : List ℕ
dangerous_chars = 10 ∷ 13 ∷ 0 ∷ codes "$`|;&<>(){}"

abbrev pub is_dangerous : ℕ → Bool
is_dangerous c = any (λ d. d == c) dangerous_chars

unfoldable pub validate_command_arg : Text → Result Text SecurityError
validate_command_arg input =
    if bad_length max_input_length input
    then err input_too_long
    else if any is_dangerous input
    then err invalid_utf8
    else ok input

unfoldable pub validate_http_header : Text → Result Text SecurityError
validate_http_header value =
    if bad_length max_input_length value
    then err input_too_long
    else if has_char 13 value || has_char 10 value
    then err invalid_utf8
    else if has_char 0 value
    then err invalid_utf8
    else ok value

abbrev pub is_http : Text → Bool
is_http url = starts_with (codes "http://") url || starts_with (codes "https://") url

unfoldable pub validate_url : Text → Result Text SecurityError
unfolding strip_prefix
validate_url url =
    if bad_length max_input_length url
    then err input_too_long
    else if not (is_http url)
    then err invalid_utf8
    else if has_char 0 url
    then err invalid_utf8
    else if not (is_http url || starts_with (codes "ftp://") url)
    then err invalid_utf8
    else if ltb (len url) 10
    then err invalid_utf8
    else if has_char 9 url || (has_char 13 url || has_char 10 url)
    then err invalid_utf8
    else ok url

-- `chars().take(n)`.
abbrev pub take_chars : ℕ → Text → Text
take_chars zero s = []
take_chars (suc n) [] = []
take_chars (suc n) (c ∷ s) = c ∷ take_chars n s

module _ (is_control : ℕ → Bool) where
  unfoldable pub sanitize_for_logging : Text → Text
  sanitize_for_logging input =
      map (λ c. if is_control c then 63 else c) (take_chars max_input_length input)
