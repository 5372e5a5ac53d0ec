-- ===== src/Enforcers/Network.antt =====
-- abi/src/security_rfc/network.rs: which hosts a plugin may connect to. `str::to_lowercase`, whose tables
-- are Unicode's, is a parameter. `none` is the panic of a slice that cuts a character, or that begins
-- behind the end.
use skylet.Prelude.{
  ℕ, ◌+◌, Bool, true, false, not, ◌&&◌, ◌||◌, Option, none, some, List, [], ◌∷◌, ◌++◌, ltb, leb,
  ◌==◌, map, if◌then◌else◌, Result, ok, err,
}
use skylet.Prelude.Lists.{length, any}
use skylet.Prelude.Texts.{Text, text_eq, codes, contains, ends_with, strip_prefix}
use skylet.Prelude.Dict
use skylet.Prelude.Dict.{Dict}
use skylet.Enforcers.{CapabilityStatus, auto_approved, is_granted}

pub record HostPattern : Type 0 where
  pub host : Text
  pub ports : List ℕ
  pub protocols : List Text
  pub status : CapabilityStatus

pub record NetworkEnforcer : Type 0 where
  pub permissions : Dict (List HostPattern)
  pub global_allowed : List HostPattern
  pub blocked_hosts : List Text

pub data NetworkAccessError : Type 0 where
  permission_denied : Text → Text → ℕ → Text → NetworkAccessError
  blocked_host : Text → NetworkAccessError
  invalid_pattern : Text → NetworkAccessError

abbrev pub open_host : Text → HostPattern
open_host host = record { host = host; ports = []; protocols = []; status = auto_approved }

abbrev pub new_network : NetworkEnforcer
new_network = record {
  permissions = [];
  global_allowed = open_host (codes "localhost") ∷ open_host (codes "127.0.0.1") ∷ [];
  blocked_hosts =
      codes "169.254.169.254"
      ∷ codes "metadata.google.internal"
      ∷ codes "metadata.azure.internal"
      ∷ [];
}

unfoldable pub register_hosts : Text → List HostPattern → NetworkEnforcer → NetworkEnforcer
register_hosts plugin_id ps e = record e { permissions = Dict.insert plugin_id ps e.permissions }

abbrev pub hosts_of : Text → NetworkEnforcer → List HostPattern
hosts_of plugin_id e = elim (Dict.lookup plugin_id e.permissions) [ none ↦ [] | some ps ↦ ps ]

unfoldable pub add_host : Text → HostPattern → NetworkEnforcer → NetworkEnforcer
add_host plugin_id p e = record e {
  permissions = Dict.insert plugin_id (hosts_of plugin_id e ++ p ∷ []) e.permissions;
}

unfoldable pub remove_hosts : Text → NetworkEnforcer → NetworkEnforcer
remove_hosts plugin_id e = record e { permissions = Dict.remove plugin_id e.permissions }

unfoldable pub get_hosts : Text → NetworkEnforcer → Option (List HostPattern)
get_hosts plugin_id e = Dict.lookup plugin_id e.permissions

unfoldable pub add_blocked_host : Text → NetworkEnforcer → NetworkEnforcer
add_blocked_host host e = record e { blocked_hosts = e.blocked_hosts ++ host ∷ [] }

unfoldable pub add_global_allowed : HostPattern → NetworkEnforcer → NetworkEnforcer
add_global_allowed p e = record e { global_allowed = e.global_allowed ++ p ∷ [] }

-- `&pattern[2..]`, where the first character is an asterisk.
abbrev pub base_domain : Text → Option Text
base_domain (c ∷ d ∷ s) = if ltb d 128 then some s else none
base_domain _ = none

abbrev pub ascii_lower : ℕ → ℕ
ascii_lower c = if leb 65 c && leb c 90 then c + 32 else c

unfoldable pub eq_ignore_ascii_case : Text → Text → Bool
eq_ignore_ascii_case s t = text_eq (map ascii_lower s) (map ascii_lower t)

-- A loop that ends at the first element that passes a test, which may panic.
unfoldable pub first_match {ℓ} : {A : Type ℓ} → (A → Option Bool) → List A → Option Bool
first_match test [] = some false
first_match test (a ∷ l) =
    let rest = first_match test l in
    elim (test a) [ none ↦ none | some found ↦ if found then some true else rest ]

abbrev pub allows_port : ℕ → HostPattern → Bool
allows_port port p = (length p.ports == 0) || any (λ q. q == port) p.ports

abbrev pub allows_protocol : Text → HostPattern → Bool
allows_protocol protocol p =
    (length p.protocols == 0) || any (λ q. eq_ignore_ascii_case q protocol) p.protocols

-- Here the case of the letters counts.
abbrev pub global_allows_protocol : Text → HostPattern → Bool
global_allows_protocol protocol p = (length p.protocols == 0) || contains protocol p.protocols

module _ (to_lowercase : Text → Text) where
  unfoldable pub host_matches_pattern : Text → Text → Option Bool
  unfolding ends_with strip_prefix
  host_matches_pattern host pattern =
      if text_eq pattern (codes "*")
      then some true
      else if text_eq (to_lowercase host) (to_lowercase pattern)
      then some true
      else elim (strip_prefix (codes "*") (to_lowercase pattern)) [
        | none ↦ some false
        | some suffix ↦ elim (base_domain (to_lowercase pattern)) [
          | none ↦ none
          | some base ↦
              some (ends_with (to_lowercase host) suffix || text_eq (to_lowercase host) base)
        ]
      ]

  abbrev pub when_found : Option Bool → Bool → Option Bool
  when_found none b = none
  when_found (some a) b = some (a && b)

  unfoldable pub global_test : Text → ℕ → Text → HostPattern → Option Bool
  unfolding host_matches_pattern
  global_test host port protocol p =
      when_found (host_matches_pattern host p.host)
        (allows_port port p && global_allows_protocol protocol p)

  unfoldable pub plugin_test : Text → ℕ → Text → HostPattern → Option Bool
  unfolding host_matches_pattern eq_ignore_ascii_case is_granted
  plugin_test host port protocol p =
      if not (is_granted p.status)
      then some false
      else when_found (host_matches_pattern host p.host)
          (allows_port port p && allows_protocol protocol p)

  abbrev pub denied_or_ok :
      Text → Text → ℕ → Text → Option Bool → Option (Result (Unit {0}) NetworkAccessError)
  denied_or_ok plugin_id host port protocol none = none
  denied_or_ok plugin_id host port protocol (some true) = some (ok tt)
  denied_or_ok plugin_id host port protocol (some false) =
      some (err (permission_denied plugin_id host port protocol))

  unfoldable pub check_host :
      Text → Text → ℕ → Text → NetworkEnforcer → Option (Result (Unit {0}) NetworkAccessError)
  unfolding first_match global_test plugin_test
  check_host plugin_id host port protocol e =
      elim (first_match (host_matches_pattern host) e.blocked_hosts) [
        | none ↦ none
        | some true ↦ some (err (blocked_host host))
        | some false ↦ elim (first_match (global_test host port protocol) e.global_allowed) [
          | none ↦ none
          | some true ↦ some (ok tt)
          | some false ↦ elim (Dict.lookup plugin_id e.permissions) [
            | none ↦ some (err (permission_denied plugin_id host port protocol))
            | some ps ↦
                denied_or_ok plugin_id host port protocol
                  (first_match (plugin_test host port protocol) ps)
          ]
        ]
      ]
