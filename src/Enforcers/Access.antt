-- ===== src/Enforcers/Access.antt =====
-- What the network enforcer of abi/src/security_rfc/network.rs lets a plugin connect to.
use skylet.Prelude.{
  ℕ, ◌≡◌, ◌⊎◌, ◌↔◌, refl, Bool, true, not, ◌&&◌, ◌||◌, Option, some, List, [], ◌∷◌, arith, Result,
  ok, err, is_ok, Bool-cases, Option-cases, inl, inr,
}
use mathlib.Core.Path.{subst}
use skylet.Prelude.Lists.{any, any_iff, In, All, All-In}
use skylet.Prelude.Texts.{Text}
use skylet.Prelude.Dict
use skylet.Enforcers.{is_granted}
use skylet.Enforcers.Network.{
  HostPattern, NetworkEnforcer, NetworkAccessError, permission_denied, blocked_host, hosts_of,
  first_match, allows_port, allows_protocol, global_allows_protocol, host_matches_pattern,
  global_test, plugin_test, check_host,
}
use skylet.Enforcers.Hosts.{IsSafe, HostMatches, host_hit, host_matches_pattern_iff}

first_match-any {ℓ} :
    {A : Type ℓ} {P : A → Type 0} (test : A → Option Bool) (b : A → Bool)
    → ((a : A) → P a → test a ≡ some (b a))
    → (l : List A) → All P l
    → first_match test l ≡ some (any b l)
unfolding first_match
first_match-any test b f [] h = refl
first_match-any test b f (a ∷ l) h = ground (arith, f a h.0, first_match-any test b f l h.1)

-- A test that says what it should of the elements of a list, says so of some of them.
any_under {ℓ} :
    {A : Type ℓ} {P Q : A → Type 0} (test : A → Bool) (l : List A)
    → All P l
    → ((a : A) → P a → (test a ≡ true) ↔ Q a)
    → (any test l ≡ true) ↔ ((a : A) × In a l × Q a)
any_under test l h f =
    let listed = any_iff test l in
    (
      λ k. let (a, i, t) = listed.0 k in (a, i, (f a (All-In _ l h i)).0 t),
      λ (a, i, q). listed.1 (a, i, (f a (All-In _ l h i)).1 q),
    )

three_tests :
    {P : Type 0} (a b c : Bool)
    → (a ≡ true) ↔ P
    → ((a && (b && c)) ≡ true) ↔ (P × (b ≡ true) × (c ≡ true))
three_tests a b c f = (
  λ h. (f.0 (ground arith), ground arith, ground arith),
  λ (p, x, y). ground (arith, f.1 p, x, y),
)

guarded_tests : {P : Type 0} (g t : Bool) → (t ≡ true) ↔ P → ((g && t) ≡ true) ↔ ((g ≡ true) × P)
guarded_tests g t f = (λ h. (ground arith, f.0 (ground arith)), λ (x, p). ground (arith, f.1 p, x))

module _ (to_lowercase : Text → Text) where
  abbrev hit : Text → Text → Bool
  hit = host_hit to_lowercase

  abbrev plugin_hit : Text → ℕ → Text → HostPattern → Bool
  plugin_hit host port protocol p =
      is_granted p.status && (hit host p.host && (allows_port port p && allows_protocol protocol p))

  abbrev global_hit : Text → ℕ → Text → HostPattern → Bool
  global_hit host port protocol p =
      hit host p.host && (allows_port port p && global_allows_protocol protocol p)

  global_test-answers :
      (host : Text) (port : ℕ) (protocol : Text) (p : HostPattern)
      → IsSafe to_lowercase p.host
      → global_test to_lowercase host port protocol p ≡ some (global_hit host port protocol p)
  unfolding global_test
  global_test-answers host port protocol p safe =
      rw (host_matches_pattern_iff to_lowercase host p.host safe).0 refl

  plugin_test-answers :
      (host : Text) (port : ℕ) (protocol : Text) (p : HostPattern)
      → IsSafe to_lowercase p.host
      → plugin_test to_lowercase host port protocol p ≡ some (plugin_hit host port protocol p)
  unfolding plugin_test
  plugin_test-answers host port protocol p safe =
      let e = (host_matches_pattern_iff to_lowercase host p.host safe).0 in
      elim (Bool-cases (is_granted p.status)) [
        | inl g ↦ ground (arith, g, e)
        | inr g ↦ ground (arith, g)
      ]

  abbrev pub Blocked : Text → NetworkEnforcer → Type 0
  Blocked host e = (b : Text) × In b e.blocked_hosts × HostMatches to_lowercase host b

  -- A pattern that is open to all plugins.
  abbrev pub OpensTo : Text → ℕ → Text → HostPattern → Type 0
  OpensTo host port protocol p =
      HostMatches to_lowercase host p.host
      × (allows_port port p ≡ true)
      × (global_allows_protocol protocol p ≡ true)

  abbrev pub IsOpen : Text → ℕ → Text → NetworkEnforcer → Type 0
  IsOpen host port protocol e =
      (p : HostPattern) × In p e.global_allowed × OpensTo host port protocol p

  -- A pattern that was granted to the plugin.
  abbrev pub GrantsTo : Text → ℕ → Text → HostPattern → Type 0
  GrantsTo host port protocol p =
      (is_granted p.status ≡ true)
      × (HostMatches to_lowercase host p.host
          × (allows_port port p ≡ true)
          × (allows_protocol protocol p ≡ true))

  abbrev pub IsGranted : Text → Text → ℕ → Text → NetworkEnforcer → Type 0
  IsGranted plugin_id host port protocol e =
      (p : HostPattern) × In p (hosts_of plugin_id e) × GrantsTo host port protocol p

  Blocked-iff :
      (host : Text) (e : NetworkEnforcer)
      → All (IsSafe to_lowercase) e.blocked_hosts
      → (any (hit host) e.blocked_hosts ≡ true) ↔ Blocked host e
  Blocked-iff host e safe =
      any_under (hit host) e.blocked_hosts safe
        (λ b k. (host_matches_pattern_iff to_lowercase host b k).1)

  IsOpen-iff :
      (host : Text) (port : ℕ) (protocol : Text) (e : NetworkEnforcer)
      → All (λ (p : HostPattern). IsSafe to_lowercase p.host) e.global_allowed
      → (any (global_hit host port protocol) e.global_allowed ≡ true) ↔ IsOpen host port protocol e
  IsOpen-iff host port protocol e safe =
      any_under {Q = OpensTo host port protocol} (global_hit host port protocol) e.global_allowed
        safe
        (λ p k.
          three_tests (hit host p.host) (allows_port port p) (global_allows_protocol protocol p)
            (host_matches_pattern_iff to_lowercase host p.host k).1)

  IsGranted-iff :
      (plugin_id host : Text) (port : ℕ) (protocol : Text) (e : NetworkEnforcer)
      → All (λ (p : HostPattern). IsSafe to_lowercase p.host) (hosts_of plugin_id e)
      → (any (plugin_hit host port protocol) (hosts_of plugin_id e) ≡ true)
        ↔ IsGranted plugin_id host port protocol e
  IsGranted-iff plugin_id host port protocol e safe =
      any_under {Q = GrantsTo host port protocol} (plugin_hit host port protocol)
        (hosts_of plugin_id e) safe
        (λ p k. guarded_tests (is_granted p.status) _ (
          three_tests (hit host p.host) (allows_port port p) (allows_protocol protocol p)
            (host_matches_pattern_iff to_lowercase host p.host k).1))

  check_host-answers :
      (plugin_id host : Text) (port : ℕ) (protocol : Text) (e : NetworkEnforcer)
      → All (IsSafe to_lowercase) e.blocked_hosts
      → All (λ (p : HostPattern). IsSafe to_lowercase p.host) e.global_allowed
      → All (λ (p : HostPattern). IsSafe to_lowercase p.host) (hosts_of plugin_id e)
      → (r : Result (Unit {0}) NetworkAccessError) × (check_host to_lowercase plugin_id host port
            protocol e
          ≡ some r)
        × (is_ok r ≡ (
            not (any (hit host) e.blocked_hosts)
            && (any (global_hit host port protocol) e.global_allowed
                || any (plugin_hit host port protocol) (hosts_of plugin_id e))))
  unfolding check_host
  check_host-answers plugin_id host port protocol e b g s =
      let blocked =
        first_match-any (host_matches_pattern to_lowercase host) (hit host)
          (λ p k. (host_matches_pattern_iff to_lowercase host p k).0) e.blocked_hosts b in
      let opened =
        first_match-any (global_test to_lowercase host port protocol)
          (global_hit host port protocol) (global_test-answers host port protocol) e.global_allowed
          g in
      let granted =
        first_match-any (plugin_test to_lowercase host port protocol)
          (plugin_hit host port protocol) (plugin_test-answers host port protocol)
          (hosts_of plugin_id e) s in
      let denied : Result (Unit {0}) NetworkAccessError =
        err (permission_denied plugin_id host port protocol) in
      elim (Bool-cases (any (hit host) e.blocked_hosts)) [
        | inl h ↦ (err (blocked_host host), ground (arith, blocked, h), ground (arith, h))
        | inr h ↦ elim (Bool-cases (any (global_hit host port protocol) e.global_allowed)) [
          | inl k ↦ (ok tt, ground (arith, blocked, h, opened, k), ground (arith, h, k))
          | inr k ↦ elim (Option-cases (Dict.lookup plugin_id e.permissions)) [
            | inl n ↦ (denied, ground (arith, blocked, h, opened, k, n), ground (arith, h, k, n))
            | inr (ps, l) ↦
                let own : hosts_of plugin_id e ≡ ps = ground (arith, l) in
                let loop =
                  subst
                    (λ q.
                      first_match (plugin_test to_lowercase host port protocol) q
                      ≡ some (any (plugin_hit host port protocol) q))
                    own granted in
                elim (Bool-cases (any (plugin_hit host port protocol) ps)) [
                  | inl y ↦ (
                    ok tt,
                    ground (arith, blocked, h, opened, k, l, loop, y),
                    ground (arith, h, k, own, y),
                  )
                  | inr y ↦ (
                    denied,
                    ground (arith, blocked, h, opened, k, l, loop, y),
                    ground (arith, h, k, own, y),
                  )
                ]
          ]
        ]
      ]

  -- Where no pattern cuts a character, a connection gets an answer, and is allowed exactly when the host
  -- matches none of the blocked patterns, and either a global pattern or a granted one of the plugin
  -- matches the host and lists the port and the protocol, or lists none of them.
  pub check_host-decides :
      (plugin_id host : Text) (port : ℕ) (protocol : Text) (e : NetworkEnforcer)
      → All (IsSafe to_lowercase) e.blocked_hosts
      → All (λ (p : HostPattern). IsSafe to_lowercase p.host) e.global_allowed
      → All (λ (p : HostPattern). IsSafe to_lowercase p.host) (hosts_of plugin_id e)
      → (r : Result (Unit {0}) NetworkAccessError) × (check_host to_lowercase plugin_id host port
            protocol e
          ≡ some r)
        × ((is_ok r ≡ true) ↔ (
            (¬ Blocked host e)
            × (IsOpen host port protocol e ⊎ IsGranted plugin_id host port protocol e)))
  check_host-decides plugin_id host port protocol e b g s =
      let (r, answer, same) = check_host-answers plugin_id host port protocol e b g s in
      let blocked = Blocked-iff host e b in
      let opened = IsOpen-iff host port protocol e g in
      let granted = IsGranted-iff plugin_id host port protocol e s in
      let refused = any (hit host) e.blocked_hosts in
      (
        r,
        answer,
        (
          λ h. (
            λ k. ground (arith, h, same, blocked.1 k),
            elim (Bool-cases (any (global_hit host port protocol) e.global_allowed)) [
              | inl y ↦ inl (opened.0 y)
              | inr y ↦ inr (granted.0 (ground (arith, h, same, y)))
            ],
          ),
          λ (n, found). elim (Bool-cases refused) [
            | inl y ↦ absurd (n (blocked.0 y))
            | inr y ↦ elim found [
              | inl o ↦ ground (arith, same, y, opened.1 o)
              | inr o ↦ ground (arith, same, y, granted.1 o)
            ]
          ],
        ),
      )
