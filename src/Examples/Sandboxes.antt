-- ===== src/Examples/Sandboxes.antt =====
-- The sandbox, the validators and the credentials of abi/src/security.rs at sample values.
use skylet.Prelude.{
  ℕ, ◌<◌, ◌≡◌, ◌↔◌, refl, true, false, not, ◌==◌, some, List, [], ◌∷◌, ◌++◌, is_ok, arith,
}
use skylet.Prelude.Lists.{all}
use skylet.Prelude.Texts.{codes, text_eq, starts_with}
use skylet.Prelude.Texts.Search.{Within}
use skylet.Prelude.Dict
use skylet.Security.Sandbox.{
  PluginSandboxPolicy, Policies, restrictive, register_policy, check_file_access, has_capability,
  file_read,
}
use skylet.Security.Confinement.{IsAllowed, check_file_access_iff}
use skylet.Security.Validation.{validate_file_path}
use skylet.Security.Accepted.{HasLength, validate_file_path_iff}
use skylet.Security.Credentials.{
  CredentialVersion, new_authenticator, new_credential, new_credential_version, api_key,
  authenticate,
}
use skylet.Security.Renewal.{
  RotationClock, rotate_credential, mark_grace, authenticate_with_grace_period,
}
use skylet.Security.Roles.{viewer}
use skylet.Security.Rotation.{Call, calls, register, rotate, Versions, calls-Versions}
use skylet.Security.Grace.{authenticate_with_grace_period-last, numbered_answer}

abbrev policies : Policies
policies = register_policy (record (restrictive (codes "mail")) { allowed_capabilities = 32 }) []

check_file_access_iff_example :
    (is_ok (check_file_access (codes "mail") (codes "/tmp/inbox") false policies) ≡ true) ↔ (
      (p : PluginSandboxPolicy) × (Dict.lookup (codes "mail") policies ≡ some p)
      × (has_capability p file_read ≡ true)
      × IsAllowed p (codes "/tmp/inbox"))
check_file_access_iff_example =
    check_file_access_iff (codes "mail") (codes "/tmp/inbox") false policies

validate_file_path_iff_example : (is_ok (validate_file_path (codes "data/a.txt")) ≡ true) ↔ (
    HasLength (codes "data/a.txt")
    × (¬ Within (codes "..") (codes "data/a.txt"))
    × (starts_with (codes "/") (codes "data/a.txt") ≡ false)
    × (all (λ c. not (c == 0)) (codes "data/a.txt") ≡ true))
validate_file_path_iff_example = validate_file_path_iff (codes "data/a.txt")

abbrev rotation_clock : RotationClock
rotation_clock = record { issued = 200; created = 200; retiring = 201; recorded = 201 }

abbrev mail_calls : List Call
mail_calls =
    register 100 (codes "mail") api_key (1 ∷ 2 ∷ []) viewer []
    ∷ rotate rotation_clock (codes "mail") (3 ∷ 4 ∷ []) (codes "leak")
    ∷ rotate rotation_clock (codes "mail") (5 ∷ 6 ∷ []) (codes "schedule")
    ∷ []

abbrev mail_version : ℕ → List ℕ → CredentialVersion
mail_version n secret =
    new_credential_version 200 n (new_credential 200 api_key (codes "mail") secret [])

abbrev mail_versions : List CredentialVersion
mail_versions =
    mark_grace 201 (mail_version 1 (3 ∷ 4 ∷ []) ∷ []) ++ mail_version 2 (5 ∷ 6 ∷ []) ∷ []

calls-Versions_example : (0 < 2) × Versions 1 mail_versions
unfolding Dict.lookup calls rotate_credential Dict.insert text_eq
calls-Versions_example = calls-Versions mail_calls (codes "mail") mail_versions (ground arith) refl

authenticate_with_grace_period-last_example :
    authenticate_with_grace_period 300 (codes "mail") (calls mail_calls new_authenticator)
    ≡ numbered_answer 2 (authenticate 300 (codes "mail") (calls mail_calls new_authenticator))
unfolding Dict.lookup calls rotate_credential Dict.insert text_eq
authenticate_with_grace_period-last_example =
    authenticate_with_grace_period-last mail_calls 300 (codes "mail") mail_versions (ground arith)
      refl
