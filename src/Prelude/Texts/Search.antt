-- ===== src/Prelude/Texts/Search.antt =====
-- What it means that a text begins with another one, or has it in it.
use mathlib.Core.Path.{◌≡◌, refl, ap, sym, ◌∙◌}
use mathlib.Core.Logic.{◌↔◌, inl, inr}
use mathlib.Core.Bool.{true, false}
use mathlib.Core.Option.{none, some}
use mathlib.Core.List.{[], ◌∷◌, ◌++◌, reverse, reverse-append, reverse-reverse}
use native.Mathlib.Omega.{arith}
use skylet.Prelude.Tests.{Bool-cases, Option-cases}
use skylet.Prelude.Texts.{Text, strip_prefix, starts_with, has_text, strip_suffix, ends_with}

pub strip_prefix_iff : (p s rest : Text) → (strip_prefix p s ≡ some rest) ↔ (s ≡ p ++ rest)
unfolding strip_prefix
strip_prefix_iff [] s rest = ground arith
strip_prefix_iff (c ∷ p) [] rest = ground arith
strip_prefix_iff (c ∷ p) (d ∷ s) rest = ground (arith, strip_prefix_iff p s rest)

-- A text begins with another one.
pub starts_with_iff : (p s : Text) → (starts_with p s ≡ true) ↔ ((rest : Text) × (s ≡ p ++ rest))
starts_with_iff p s = (
  λ h. elim (Option-cases (strip_prefix p s)) [
    | inl e ↦ ground (arith, h, e)
    | inr (rest, e) ↦ (rest, (strip_prefix_iff p s rest).0 e)
  ],
  λ h. ground (arith, (strip_prefix_iff p s h.0).1 h.1),
)

-- A text has another one in it.
pub record Within (p s : Text) : Type 0 where
  pub before : Text
  pub behind : Text
  pub split : s ≡ before ++ (p ++ behind)

has_text-here : (p t : Text) → starts_with p t ≡ true → has_text p t ≡ true
unfolding has_text
has_text-here p [] h = h
has_text-here p (c ∷ t) h = ground (arith, h)

has_text-append : (p a t : Text) → starts_with p t ≡ true → has_text p (a ++ t) ≡ true
unfolding has_text
has_text-append p [] t h = has_text-here p t h
has_text-append p (c ∷ a) t h = ground (arith, has_text-append p a t h)

has_text-Within : (p s : Text) → has_text p s ≡ true → Within p s
unfolding has_text
has_text-Within p [] h =
    let (rest, e) = (starts_with_iff p []).0 h in record { before = []; behind = rest; split = e }
has_text-Within p (c ∷ s) h = elim (Bool-cases (starts_with p (c ∷ s))) [
  | inl here ↦
      let (rest, e) = (starts_with_iff p (c ∷ s)).0 here in
      record { before = []; behind = rest; split = e }
  | inr there ↦
      let w = has_text-Within p s (ground (arith, h, there)) in
      record { before = c ∷ w.before; behind = w.behind; split = ap (λ t. c ∷ t) w.split }
]

pub has_text_iff : (p s : Text) → (has_text p s ≡ true) ↔ Within p s
has_text_iff p s = (
  has_text-Within p s,
  λ w. rw w.split (
      has_text-append p w.before (p ++ w.behind)
        ((starts_with_iff p (p ++ w.behind)).1 (w.behind, refl))),
)

reversed : (s t p : Text) → (reverse s ≡ reverse p ++ t) ↔ (s ≡ reverse t ++ p)
reversed s t p = (
  λ h.
      sym (reverse-reverse s)
      ∙ (ap reverse h
          ∙ (reverse-append (reverse p) t ∙ ap (λ q. reverse t ++ q) (reverse-reverse p))),
  λ h. ap reverse h ∙ (reverse-append (reverse t) p ∙ ap (λ q. reverse p ++ q) (reverse-reverse t)),
)

-- A text without another one at its end.
pub strip_suffix_iff : (p s rest : Text) → (strip_suffix p s ≡ some rest) ↔ (s ≡ rest ++ p)
unfolding strip_suffix
strip_suffix_iff p s rest = (
  λ h. elim (Option-cases (strip_prefix (reverse p) (reverse s))) [
    | inl e ↦ ground (arith, h, e)
    | inr (t, e) ↦
        let same : reverse t ≡ rest = ground (arith, h, e) in
        (reversed s t p).0 ((strip_prefix_iff (reverse p) (reverse s) t).0 e)
        ∙ ap (λ r. r ++ p) same
  ],
  λ h.
      let e =
        (strip_prefix_iff (reverse p) (reverse s) (reverse rest)).1
          ((reversed s (reverse rest) p).1 (h ∙ ap (λ r. r ++ p) (sym (reverse-reverse rest)))) in
      rw (strip_suffix, e) (ap some (reverse-reverse rest)),
)

ends_with-strip_suffix :
    (p s : Text) → ends_with s p ≡ (elim (strip_suffix p s) [ none ↦ false | some _ ↦ true ])
unfolding ends_with strip_suffix
ends_with-strip_suffix p s = elim (Option-cases (strip_prefix (reverse p) (reverse s))) [
  | inl e ↦ rw (ends_with, strip_suffix, e) refl
  | inr (t, e) ↦ rw (ends_with, strip_suffix, e) refl
]

-- A text ends with another one.
pub ends_with_iff : (p s : Text) → (ends_with s p ≡ true) ↔ ((rest : Text) × (s ≡ rest ++ p))
ends_with_iff p s = (
  λ h. elim (Option-cases (strip_suffix p s)) [
    | inl e ↦ ground (arith, h, e, ends_with-strip_suffix p s)
    | inr (rest, e) ↦ (rest, (strip_suffix_iff p s rest).0 e)
  ],
  λ h. ground (arith, (strip_suffix_iff p s h.0).1 h.1, ends_with-strip_suffix p s),
)
