-- ===== src/Version/Number.antt =====
-- `str::parse::<u64>` and `u64::to_string` of the standard library, as the parser and the printer of
-- abi/src/dependencies/version.rs call them.
use skylet.Prelude.{
  ℕ, zero, suc, ◌+◌, ◌-◌, ◌*◌, ◌/◌, ◌%◌, ◌&&◌, Option, none, some, [], ◌∷◌, ltb, ◌==◌,
  if◌then◌else◌, u64_mod,
}
use skylet.Prelude.Texts.{Text, is_ascii_digit}

-- The checked loop over the digits: a wrong digit or a value of 2 ^ 64 ends it.
unfoldable pub parse_digits : ℕ → Text → Option ℕ
parse_digits acc [] = some acc
parse_digits acc (c ∷ s) =
    let n = acc * 10 + (c - 48) in
    let rest = parse_digits n s in if is_ascii_digit c && ltb n u64_mod then rest else none

-- A leading `+` is accepted; the empty text and a sign alone are not numbers.
unfoldable pub parse_u64 : Text → Option ℕ
parse_u64 [] = none
parse_u64 (c ∷ []) = parse_digits 0 (c ∷ [])
parse_u64 (c ∷ d ∷ s) = if c == 43 then parse_digits 0 (d ∷ s) else parse_digits 0 (c ∷ d ∷ s)

-- The digits of a number in front of `acc`; the fuel bounds their count.
unfoldable pub print_digits : ℕ → ℕ → Text → Text
print_digits zero n acc = acc
print_digits (suc fuel) n acc =
    let more = print_digits fuel (n / 10) ((48 + n % 10) ∷ acc) in
    if ltb n 10 then (48 + n) ∷ acc else more

-- A number below 2 ^ 64 has at most 20 digits.
unfoldable pub print_u64 : ℕ → Text
print_u64 n = print_digits 20 n []
