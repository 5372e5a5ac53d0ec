-- ===== src/Security/Renewal.antt =====
-- The rotation of credentials in abi/src/security.rs: versions, their grace period, and their cleanup.
use skylet.Prelude.{
  ℕ, ◌+◌, ◌-◌, ◌%◌, Bool, true, false, not, Option, none, some, List, [], ◌∷◌, ◌++◌, if◌then◌else◌,
  Result, ok, err,
}
use mathlib.Core.List.{reverse}
use skylet.Prelude.Lists.{length, filter}
use skylet.Prelude.Texts.{Text}
use skylet.Prelude.Dict
use skylet.Prelude.Dict.{Dict}
use skylet.AbiCompat.{u32_mod}
use skylet.Security.{SecurityError, authentication_failed}
use skylet.Security.Roles.{PluginRole}
use skylet.Security.Credentials.{
  CredentialVersion, PluginAuthenticator, PluginCredential, active, authenticate, grace, is_expired,
  is_in_grace_period, new_credential, new_credential_version, or_none, record_rotation, retired,
}

-- The clock readings of a rotation, in their order.
pub record RotationClock : Type 0 where
  pub issued : ℕ
  pub created : ℕ
  pub retiring : ℕ
  pub recorded : ℕ

-- The number behind that of the last version.
abbrev pub next_version : List CredentialVersion → ℕ
next_version [] = 1
next_version (v ∷ []) = (v.version + 1) % u32_mod
next_version (v ∷ w ∷ vs) = next_version (w ∷ vs)

abbrev pub mark_grace : ℕ → List CredentialVersion → List CredentialVersion
mark_grace now [] = []
mark_grace now (v ∷ []) = record v { status = grace; retired_at = some now } ∷ []
mark_grace now (v ∷ w ∷ vs) = v ∷ mark_grace now (w ∷ vs)

-- The number of the last version but one, or 0.
abbrev pub previous_version : List CredentialVersion → ℕ
previous_version [] = 0
previous_version (v ∷ []) = 0
previous_version (v ∷ w ∷ []) = v.version
previous_version (v ∷ w ∷ x ∷ vs) = previous_version (w ∷ x ∷ vs)

abbrev pub renewed : ℕ → Text → List ℕ → PluginCredential → PluginCredential
renewed now plugin_id new_data old =
    new_credential now old.credential_type plugin_id new_data old.scopes

abbrev pub rotated :
    RotationClock
    → Text
    → PluginCredential
    → Text
    → List CredentialVersion
    → PluginAuthenticator
    → PluginAuthenticator
rotated clock plugin_id credential reason versions a =
    let number = next_version versions in
    let versions' =
      mark_grace clock.retiring versions
      ++ new_credential_version clock.created number credential ∷ [] in
    record a {
      credentials = Dict.insert plugin_id credential a.credentials;
      credential_versions = Dict.insert plugin_id versions' a.credential_versions;
      rotations =
          record_rotation clock.recorded plugin_id (previous_version versions') number reason
            a.rotations;
    }

unfoldable pub rotate_credential :
    RotationClock
    → Text
    → List ℕ
    → Text
    → PluginAuthenticator
    → PluginAuthenticator × Result ℕ SecurityError
rotate_credential clock plugin_id new_data reason a =
    let versions = or_none (Dict.lookup plugin_id a.credential_versions) in
    elim (Dict.lookup plugin_id a.credentials) [
      | none ↦ (a, err authentication_failed)
      | some old ↦ (
        rotated clock plugin_id (renewed clock.issued plugin_id new_data old) reason versions a,
        ok (next_version versions),
      )
    ]

unfoldable pub get_credential_versions : Text → PluginAuthenticator → List CredentialVersion
get_credential_versions plugin_id a = or_none (Dict.lookup plugin_id a.credential_versions)

abbrev pub beyond_grace : ℕ → Option ℕ → Bool
beyond_grace now none = false
beyond_grace now (some retired_at) = not (is_in_grace_period now retired_at)

-- The loop over the versions, the last one first.
unfoldable pub try_versions :
    ℕ
    → Result PluginRole SecurityError
    → List CredentialVersion
    → Result (PluginRole × ℕ) SecurityError
unfolding is_expired is_in_grace_period
try_versions now answer [] = err authentication_failed
try_versions now answer (v ∷ vs) =
    let rest = try_versions now answer vs in
    let this : Result (PluginRole × ℕ) SecurityError = elim answer [
      | ok role ↦ ok (role, v.version)
      | err e ↦ err e
    ] in
    elim v.status [
      | active ↦ this
      | grace ↦
          if beyond_grace now v.retired_at
          then rest
          else if not (is_expired now v.credential)
          then this
          else rest
      | retired ↦ rest
    ]

unfoldable pub authenticate_with_grace_period :
    ℕ → Text → PluginAuthenticator → Result (PluginRole × ℕ) SecurityError
unfolding try_versions authenticate
authenticate_with_grace_period now plugin_id a =
    elim (Dict.lookup plugin_id a.credential_versions) [
      | none ↦ err authentication_failed
      | some versions ↦ try_versions now (authenticate now plugin_id a) (reverse versions)
    ]

abbrev pub stays : ℕ → CredentialVersion → Bool
stays now v = elim v.status [
  | retired ↦ elim v.retired_at [
    | none ↦ true
    | some retired_at ↦ is_in_grace_period now retired_at
  ]
  | active ↦ true
  | grace ↦ true
]

-- The versions that stay, by plugin, and the number of those that went.
unfoldable pub clean : ℕ → Dict (List CredentialVersion) → Dict (List CredentialVersion) × ℕ
clean now [] = ([], 0)
clean now ((id, vs) ∷ m) =
    let rest = clean now m in
    let kept = filter (stays now) vs in ((id, kept) ∷ rest.0, (length vs - length kept) + rest.1)

unfoldable pub cleanup_expired_credentials : ℕ → PluginAuthenticator → PluginAuthenticator × ℕ
unfolding clean
cleanup_expired_credentials now a =
    let (versions, cleaned) = clean now a.credential_versions in
    (record a { credential_versions = versions }, cleaned)
