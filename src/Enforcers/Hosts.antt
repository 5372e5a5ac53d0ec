-- ===== src/Enforcers/Hosts.antt =====
-- The hosts that a pattern of abi/src/security_rfc/network.rs matches.
use skylet.Prelude.{
  ℕ, ◌≡◌, ◌⊎◌, ◌↔◌, refl, sym, ap, ◌∙◌, Bool, true, false, not, ◌||◌, Option, none, some, [], ◌∷◌,
  ◌++◌, ltb, ◌==◌, arith, Bool-cases, Option-cases, inl, inr,
}
use skylet.Prelude.Texts.{Text, text_eq, text_eq_iff, codes, ends_with, strip_prefix}
use skylet.Prelude.Texts.Search.{strip_prefix_iff, ends_with_iff}
use skylet.Enforcers.Network.{base_domain, host_matches_pattern}

-- Where a text begins with an asterisk, an ASCII character stands behind it.
abbrev pub is_sliceable : Text → Bool
is_sliceable (c ∷ d ∷ s) = not (c == 42) || ltb d 128
is_sliceable (c ∷ []) = not (c == 42)
is_sliceable [] = true

module _ (to_lowercase : Text → Text) where
  -- The patterns that do not cut a character.
  abbrev pub IsSafe : Text → Type 0
  IsSafe pattern = is_sliceable (to_lowercase pattern) ≡ true

  -- The hosts of a pattern.
  pub data HostMatches (host pattern : Text) : Type 0 where
    anything : pattern ≡ codes "*" → HostMatches host pattern
    equal : to_lowercase host ≡ to_lowercase pattern → HostMatches host pattern
    subdomain :
        (sub suffix : Text)
        → to_lowercase pattern ≡ codes "*" ++ suffix
        → to_lowercase host ≡ sub ++ suffix
        → HostMatches host pattern
    base :
        (c : ℕ)
        → to_lowercase pattern ≡ codes "*" ++ (c ∷ to_lowercase host)
        → HostMatches host pattern

  -- The answer where nothing panics.
  abbrev pub answered : Option Bool → Bool
  answered none = false
  answered (some b) = b

  abbrev pub host_hit : Text → Text → Bool
  host_hit host pattern = answered (host_matches_pattern to_lowercase host pattern)

  wildcard-base_domain :
      (t suffix : Text)
      → is_sliceable t ≡ true
      → strip_prefix (codes "*") t ≡ some suffix
      → (c : ℕ) × (b : Text) × (base_domain t ≡ some b)
        × (t ≡ codes "*" ++ (c ∷ b))
        × (suffix ≡ c ∷ b)
  unfolding strip_prefix
  wildcard-base_domain [] suffix s h = ground arith
  wildcard-base_domain (c ∷ []) suffix s h = ground arith
  wildcard-base_domain (c ∷ d ∷ t) suffix s h =
      (d, t, ground (arith, s, h), ground (arith, s, h), ground (arith, s, h))

  refuted :
      (host pattern : Text)
      → text_eq pattern (codes "*") ≡ false
      → text_eq (to_lowercase host) (to_lowercase pattern) ≡ false
      → ((suffix : Text)
          → strip_prefix (codes "*") (to_lowercase pattern) ≡ some suffix
          → (ends_with (to_lowercase host) suffix ≡ false)
            × ((c : ℕ) → ¬ (suffix ≡ c ∷ to_lowercase host)))
      → ¬ HostMatches host pattern
  refuted host pattern star whole wild (anything e) =
      ground (arith, star, (text_eq_iff pattern (codes "*")).1 e)
  refuted host pattern star whole wild (equal e) =
      ground (arith, whole, (text_eq_iff (to_lowercase host) (to_lowercase pattern)).1 e)
  refuted host pattern star whole wild (subdomain sub suffix e h) =
      let strip = (strip_prefix_iff (codes "*") (to_lowercase pattern) suffix).1 e in
      ground (arith, (wild suffix strip).0, (ends_with_iff suffix (to_lowercase host)).1 (sub, h))
  refuted host pattern star whole wild (base c e) =
      let suffix = c ∷ to_lowercase host in
      let strip = (strip_prefix_iff (codes "*") (to_lowercase pattern) suffix).1 e in
      (wild suffix strip).1 c refl

  -- What the code answers, and why.
  abbrev Decided : Text → Text → Type 0
  Decided host pattern =
      ((host_matches_pattern to_lowercase host pattern ≡ some true) × HostMatches host pattern)
      ⊎ ((host_matches_pattern to_lowercase host pattern ≡ some false)
          × (¬ HostMatches host pattern))

  wildcard-Decided :
      (host pattern suffix : Text)
      → IsSafe pattern
      → text_eq pattern (codes "*") ≡ false
      → text_eq (to_lowercase host) (to_lowercase pattern) ≡ false
      → strip_prefix (codes "*") (to_lowercase pattern) ≡ some suffix
      → Decided host pattern
  unfolding host_matches_pattern
  wildcard-Decided host pattern suffix safe star whole strip =
      let h = to_lowercase host in
      let (c, b, sliced, shape, same) =
        wildcard-base_domain (to_lowercase pattern) suffix safe strip in
      let split = (strip_prefix_iff (codes "*") (to_lowercase pattern) suffix).0 strip in
      elim (Bool-cases (ends_with h suffix)) [
        | inl ends ↦
            let (sub, e) = (ends_with_iff suffix h).0 ends in
            inl (ground (arith, star, whole, strip, sliced, ends), subdomain sub suffix split e)
        | inr ends ↦ elim (Bool-cases (text_eq h b)) [
          | inl eq ↦
              let e = (text_eq_iff h b).0 eq in
              inl (
                ground (arith, star, whole, strip, sliced, ends, eq),
                base c (shape ∙ ap (λ t. codes "*" ++ (c ∷ t)) (sym e)),
              )
          | inr eq ↦ inr (
            ground (arith, star, whole, strip, sliced, ends, eq),
            refuted host pattern star whole (λ suffix' e. (
              ground (arith, ends, strip, e),
              λ c' k. ground (arith, same, strip, e, k, eq, text_eq_iff h b),
            )),
          )
        ]
      ]

  host_matches_pattern-Decided : (host pattern : Text) → IsSafe pattern → Decided host pattern
  unfolding host_matches_pattern
  host_matches_pattern-Decided host pattern safe = elim (Bool-cases (text_eq pattern (codes "*"))) [
    | inl star ↦ inl (ground (arith, star), anything ((text_eq_iff pattern (codes "*")).0 star))
    | inr star ↦ elim (Bool-cases (text_eq (to_lowercase host) (to_lowercase pattern))) [
      | inl whole ↦ inl (
        ground (arith, star, whole),
        equal ((text_eq_iff (to_lowercase host) (to_lowercase pattern)).0 whole),
      )
      | inr whole ↦ elim (Option-cases (strip_prefix (codes "*") (to_lowercase pattern))) [
        | inl n ↦ inr (
          ground (arith, star, whole, n),
          refuted host pattern star whole (λ suffix e. absurd (ground (arith, n, e))),
        )
        | inr (suffix, e) ↦ wildcard-Decided host pattern suffix safe star whole e
      ]
    ]
  ]

  -- A pattern that cuts no character has an answer for every host: whether the host is one of the
  -- pattern's.
  pub host_matches_pattern_iff :
      (host pattern : Text)
      → IsSafe pattern
      → (host_matches_pattern to_lowercase host pattern ≡ some (host_hit host pattern))
        × ((host_hit host pattern ≡ true) ↔ HostMatches host pattern)
  host_matches_pattern_iff host pattern safe =
      elim (host_matches_pattern-Decided host pattern safe) [
        | inl (e, m) ↦ (ground (arith, e), ((λ h. m), (λ k. ground (arith, e))))
        | inr (e, m) ↦
            (ground (arith, e), ((λ h. absurd (ground (arith, e, h))), (λ k. absurd (m k))))
      ]
