-- ===== src/Security/Credentials.antt =====
-- The credentials and rotations of abi/src/security.rs: `PluginAuthenticator` without its second
-- factors. Clock readings are arguments; where an operation reads the clock several times, they are the
-- fields of a record. The counters of versions have 32 bits.
use skylet.Prelude.{
  ℕ, ◌+◌, ◌-◌, Bool, false, Option, none, some, List, [], ◌∷◌, ◌++◌, ltb, ◌==◌, if◌then◌else◌,
  Result, ok, err,
}
use skylet.Prelude.Texts.{Text, contains}
use skylet.Prelude.Dict
use skylet.Prelude.Dict.{Dict}
use skylet.Security.{SecurityError, authentication_failed}
use skylet.Security.Roles.{PluginPermissions, PluginRole, check_name, from_role}

pub data CredentialType : Type 0 where
  api_key certificate oauth2_token basic_auth : CredentialType

pub record PluginCredential : Type 0 where
  pub credential_type : CredentialType
  pub plugin_id : Text
  pub credential_data : List ℕ
  pub issued_at : ℕ
  pub expires_at : ℕ
  pub scopes : List Text

-- A credential expires a year after it was issued.
abbrev pub new_credential : ℕ → CredentialType → Text → List ℕ → List Text → PluginCredential
new_credential now credential_type plugin_id credential_data scopes = record {
  credential_type = credential_type;
  plugin_id = plugin_id;
  credential_data = credential_data;
  issued_at = now;
  expires_at = now + 31536000;
  scopes = scopes;
}

unfoldable pub is_expired : ℕ → PluginCredential → Bool
is_expired now c = if c.expires_at == 0 then false else ltb c.expires_at now

unfoldable pub has_scope : Text → PluginCredential → Bool
has_scope scope c = contains scope c.scopes

pub data CredentialStatus : Type 0 where
  active grace retired : CredentialStatus

pub record CredentialVersion : Type 0 where
  pub version : ℕ
  pub credential : PluginCredential
  pub status : CredentialStatus
  pub created_at : ℕ
  pub rotated_at : Option ℕ
  pub retired_at : Option ℕ

abbrev pub new_credential_version : ℕ → ℕ → PluginCredential → CredentialVersion
new_credential_version now version credential = record {
  version = version;
  credential = credential;
  status = active;
  created_at = now;
  rotated_at = none;
  retired_at = none;
}

pub record RotationHistory : Type 0 where
  pub plugin_id : Text
  pub from_version : ℕ
  pub to_version : ℕ
  pub rotation_time : ℕ
  pub reason : Text

pub record PluginAuthenticator : Type 0 where
  pub credentials : Dict PluginCredential
  pub roles : Dict PluginRole
  pub rotations : Dict (List RotationHistory)
  pub credential_versions : Dict (List CredentialVersion)

abbrev pub new_authenticator : PluginAuthenticator
new_authenticator = record {
  credentials = [];
  roles = [];
  rotations = [];
  credential_versions = [];
}

abbrev pub or_none {ℓ} : {A : Type ℓ} → Option (List A) → List A
or_none none = []
or_none (some l) = l

unfoldable pub record_rotation :
    ℕ → Text → ℕ → ℕ → Text → Dict (List RotationHistory) → Dict (List RotationHistory)
record_rotation now plugin_id from_version to_version reason rotations =
    Dict.insert plugin_id
      (or_none (Dict.lookup plugin_id rotations)
        ++ record {
          plugin_id = plugin_id;
          from_version = from_version;
          to_version = to_version;
          rotation_time = now;
          reason = reason;
        }
          ∷ [])
      rotations

unfoldable pub get_rotation_history : Text → PluginAuthenticator → List RotationHistory
get_rotation_history plugin_id a = or_none (Dict.lookup plugin_id a.rotations)

-- Seven days, whatever the grace period of the manager is. `-` on ℕ is `saturating_sub`.
unfoldable pub is_in_grace_period : ℕ → ℕ → Bool
is_in_grace_period now retired_at = ltb (now - retired_at) 604800

unfoldable pub register_plugin :
    ℕ
    → Text
    → CredentialType
    → List ℕ
    → PluginRole
    → List Text
    → PluginAuthenticator
    → PluginAuthenticator
register_plugin now plugin_id credential_type credential_data role scopes a = record a {
  credentials =
      Dict.insert plugin_id (new_credential now credential_type plugin_id credential_data scopes)
        a.credentials;
  roles = Dict.insert plugin_id role a.roles;
}

unfoldable pub authenticate : ℕ → Text → PluginAuthenticator → Result PluginRole SecurityError
unfolding is_expired
authenticate now plugin_id a = elim (Dict.lookup plugin_id a.credentials) [
  | none ↦ err authentication_failed
  | some credential ↦
      if is_expired now credential
      then err authentication_failed
      else elim (Dict.lookup plugin_id a.roles) [
        | none ↦ err authentication_failed
        | some role ↦ ok role
      ]
]

unfoldable pub check_permission : ℕ → Text → Text → PluginAuthenticator → Result Bool SecurityError
unfolding authenticate from_role check_name
check_permission now plugin_id permission a = elim (authenticate now plugin_id a) [
  | err e ↦ err e
  | ok role ↦ ok (check_name permission (from_role role))
]

unfoldable pub get_permissions :
    ℕ → Text → PluginAuthenticator → Result PluginPermissions SecurityError
unfolding authenticate from_role
get_permissions now plugin_id a = elim (authenticate now plugin_id a) [
  | err e ↦ err e
  | ok role ↦ ok (from_role role)
]

unfoldable pub set_role : Text → PluginRole → PluginAuthenticator → PluginAuthenticator
set_role plugin_id role a = record a { roles = Dict.insert plugin_id role a.roles }

unfoldable pub revoke_plugin : Text → PluginAuthenticator → PluginAuthenticator
revoke_plugin plugin_id a = record a {
  credentials = Dict.remove plugin_id a.credentials;
  roles = Dict.remove plugin_id a.roles;
}

unfoldable pub list_plugins : PluginAuthenticator → List Text
list_plugins a = Dict.keys a.credentials
