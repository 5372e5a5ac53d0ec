-- ===== src/Prelude/Bits.antt =====
-- When an exclusive or, and an or, of two numbers is zero; and the UTF-8 bytes of a text.
use Prim.Native.Nat.{
  ℕ, zero, suc, ◌+◌, ◌/◌, ◌%◌, ◌≤◌, max, bit_or, bit_xor, digits, differ, bit_or-bitwise,
  bit_xor-bitwise,
}
use mathlib.Core.Path.{◌≡◌, refl, sym, ◌∙◌, ap}
use mathlib.Core.Logic.{◌↔◌}
use mathlib.Core.List.{List, [], ◌∷◌}
use native.Mathlib.Omega.{arith}
use skylet.Prelude.Tests.{ltb, if◌then◌else◌}
use skylet.Prelude.Texts.{Text}

differ-eq-zero : (x y : ℕ) → differ x y ≡ 0 → x ≡ y
differ-eq-zero zero y h = sym h
differ-eq-zero (suc x) zero h = absurd (omega arith)
differ-eq-zero (suc x) (suc y) h = ap suc (differ-eq-zero x y h)

differ_self : (x : ℕ) → differ x x ≡ 0
differ_self zero = refl
differ_self (suc x) = differ_self x

xor_digits : (n a b : ℕ) → a ≤ n → digits (λ b. b) differ n a b ≡ 0 → a ≡ b
xor_digits zero zero b h e = sym e
xor_digits zero (suc a) b h e = absurd (omega arith)
xor_digits (suc n) zero b h e = sym e
xor_digits (suc n) (suc a) b h e = omega (
  arith,
  xor_digits n (suc a / 2) (b / 2) (omega arith) (omega arith),
  differ-eq-zero (suc a % 2) (b % 2) (omega arith),
)

xor_digits_self : (n a : ℕ) → a ≤ n → digits (λ b. b) differ n a a ≡ 0
xor_digits_self zero zero h = refl
xor_digits_self zero (suc a) h = absurd (omega arith)
xor_digits_self (suc n) zero h = refl
xor_digits_self (suc n) (suc a) h =
    omega (arith, xor_digits_self n (suc a / 2) (omega arith), differ_self (suc a % 2))

pub bit_xor-eq-zero : (a b : ℕ) → (bit_xor a b ≡ 0) ↔ (a ≡ b)
bit_xor-eq-zero a b = (
  λ e. xor_digits a a b (omega arith) (sym (bit_xor-bitwise a b) ∙ e),
  λ e. bit_xor-bitwise a b ∙ rw (← e) (xor_digits_self a a (omega arith)),
)

or_digits : (n a b : ℕ) → a ≤ n → digits (λ b. b) max n a b ≡ 0 → (a ≡ 0) × (b ≡ 0)
or_digits zero zero b h e = (refl, e)
or_digits zero (suc a) b h e = absurd (omega arith)
or_digits (suc n) zero b h e = (refl, e)
or_digits (suc n) (suc a) b h e =
    omega (arith, or_digits n (suc a / 2) (b / 2) (omega arith) (omega arith))

pub bit_or-eq-zero : (a b : ℕ) → (bit_or a b ≡ 0) ↔ ((a ≡ 0) × (b ≡ 0))
bit_or-eq-zero a b =
    (λ e. or_digits a a b (omega arith) (sym (bit_or-bitwise a b) ∙ e), λ e. rw (e.0, e.1) refl)

-- The encoding of one scalar value, in front of the bytes of what follows.
unfoldable pub utf8_char : ℕ → List ℕ → List ℕ
utf8_char c rest =
    if ltb c 128
    then c ∷ rest
    else if ltb c 2048
    then (192 + c / 64) ∷ (128 + c % 64) ∷ rest
    else if ltb c 65536
    then (224 + c / 4096) ∷ (128 + c / 64 % 64) ∷ (128 + c % 64) ∷ rest
    else (240 + c / 262144) ∷ (128 + c / 4096 % 64) ∷ (128 + c / 64 % 64) ∷ (128 + c % 64) ∷ rest

-- `str::as_bytes`.
unfoldable pub as_bytes : Text → List ℕ
unfolding utf8_char
as_bytes [] = []
as_bytes (c ∷ s) = utf8_char c (as_bytes s)

utf8_char_injective : (c d : ℕ) (s t : List ℕ) → utf8_char c s ≡ utf8_char d t → (c ≡ d) × (s ≡ t)
unfolding utf8_char
utf8_char_injective c d s t h = ground arith

utf8_char-ne-nil : (c : ℕ) (s : List ℕ) → ¬ (utf8_char c s ≡ [])
unfolding utf8_char
utf8_char-ne-nil c s h = ground arith

pub as_bytes_injective : (s t : Text) → as_bytes s ≡ as_bytes t → s ≡ t
unfolding as_bytes
as_bytes_injective [] [] h = refl
as_bytes_injective [] (d ∷ t) h = absurd (utf8_char-ne-nil d (as_bytes t) (sym h))
as_bytes_injective (c ∷ s) [] h = absurd (utf8_char-ne-nil c (as_bytes s) h)
as_bytes_injective (c ∷ s) (d ∷ t) h =
    let same = utf8_char_injective c d (as_bytes s) (as_bytes t) h in
    ground (arith, same, as_bytes_injective s t same.1)
