-- ===== src/Version/Digits.antt =====
-- Decimal numbers: parsing undoes printing, and what the printed texts hold
-- (abi/src/dependencies/version.rs, by way of the standard library).
use skylet.Prelude.{
  ℕ, zero, suc, ◌+◌, ◌-◌, ◌*◌, ◌/◌, ◌%◌, ◌<◌, ◌≡◌, ◌≢◌, refl, ◌∙◌, true, false, some, [], ◌∷◌,
  arith, ltb, u64_mod, Bool-cases, inl, inr, sym, ap,
}
use skylet.Prelude.Lists.{all}
use skylet.Prelude.Texts.{Text, is_ascii_digit}
use skylet.Version.Number.{parse_digits, parse_u64, print_digits, print_u64}

abbrev pow10 : ℕ → ℕ
pow10 zero = 1
pow10 (suc f) = 10 * pow10 f

digit_back :
    (n acc : ℕ) (s : Text)
    → n < 10
    → acc * 10 + n < u64_mod
    → parse_digits acc ((48 + n) ∷ s) ≡ parse_digits (acc * 10 + n) s
unfolding parse_digits
digit_back n acc s h k =
    let e : acc * 10 + (48 + n - 48) ≡ acc * 10 + n = omega arith in rw e (ground arith)

deeper : (g n : ℕ) → ltb n 10 ≡ false → n < pow10 (suc g) → 0 < g
deeper zero n a b = absurd (ground arith)
deeper (suc g) n a b = omega arith

parse_digits-print_digits :
    (fuel n : ℕ) (acc : Text)
    → n < pow10 fuel
    → n < u64_mod
    → 0 < fuel
    → parse_digits 0 (print_digits fuel n acc) ≡ parse_digits n acc
unfolding print_digits
parse_digits-print_digits zero n acc h k p = absurd (omega arith)
parse_digits-print_digits (suc f) n acc h k p = elim (Bool-cases (ltb n 10)) [
  | inl small ↦ rw small (digit_back n 0 acc (ground arith) (ground arith) ∙ rest (omega arith))
  | inr large ↦ rw large (
      parse_digits-print_digits f (n / 10) ((48 + n % 10) ∷ acc) (omega arith) (omega arith)
        (deeper f n large h)
      ∙ digit_back (n % 10) (n / 10) acc (omega arith) (omega arith)
      ∙ rest (omega arith))
]
  where
    rest : {m : ℕ} → m ≡ n → parse_digits m acc ≡ parse_digits n acc
    rest e = ap (λ m. parse_digits m acc) e

-- A printed number: it is not empty, holds digits only, and begins with 0 only if it is "0".
pub record Printed (n : ℕ) (acc t : Text) : Type 0 where
  pub first : ℕ
  pub others : Text
  pub shape : t ≡ first ∷ others
  pub digit : is_ascii_digit first ≡ true
  pub digits : all is_ascii_digit others ≡ all is_ascii_digit acc
  pub lead : 0 < n → first ≢ 48
  pub short : n < 10 → others ≡ acc

print_digits-Printed :
    (fuel n : ℕ) (acc : Text) → n < pow10 fuel → 0 < fuel → Printed n acc (print_digits fuel n acc)
unfolding print_digits
print_digits-Printed zero n acc h p = absurd (omega arith)
print_digits-Printed (suc f) n acc h p = elim (Bool-cases (ltb n 10)) [
  | inl small ↦ rw small (record {
    first = 48 + n;
    others = acc;
    shape = refl;
    digit = ground arith;
    digits = refl;
    lead = λ q e. omega arith;
    short = λ q. refl;
  })
  | inr large ↦
      let r =
        print_digits-Printed f (n / 10) ((48 + n % 10) ∷ acc) (omega arith) (deeper f n large h) in
      rw large (record {
        first = r.first;
        others = r.others;
        shape = r.shape;
        digit = r.digit;
        digits = ground (arith, r.digits);
        lead = λ q. r.lead (ground arith);
        short = λ q. absurd (ground arith);
      })
]

pub printed : (n : ℕ) → n < u64_mod → Printed n [] (print_u64 n)
unfolding print_u64
printed n h = print_digits-Printed 20 n [] (omega arith) (omega arith)

-- A text that begins with a digit has no sign to skip.
parse_u64-digit :
    (c : ℕ) (s : Text) → is_ascii_digit c ≡ true → parse_u64 (c ∷ s) ≡ parse_digits 0 (c ∷ s)
unfolding parse_u64
parse_u64-digit c [] h = refl
parse_u64-digit c (d ∷ s) h = ground arith

-- Parsing undoes printing, for every number of 64 bits.
pub parse_u64-print_u64 : (n : ℕ) → n < u64_mod → parse_u64 (print_u64 n) ≡ some n
parse_u64-print_u64 n h =
    let r = printed n h in
    rw r.shape
      (parse_u64-digit r.first r.others r.digit ∙ ap (parse_digits 0) (sym r.shape) ∙ whole)
  where
    whole : parse_digits 0 (print_u64 n) ≡ some n
    whole =
        unfold print_u64 parse_digits in
        parse_digits-print_digits 20 n [] (omega arith) h (omega arith)

-- The printed number as one list of digits.
pub all_digits : (n : ℕ) → n < u64_mod → all is_ascii_digit (print_u64 n) ≡ true
all_digits n h = let r = printed n h in rw r.shape (ground (arith, r.digit, r.digits))
