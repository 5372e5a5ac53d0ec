-- ===== src/Policy/Review.antt =====
-- The rest of abi/src/security_rfc/policy.rs: which capabilities are approved, revocation, expiry, and
-- the operations together.
use skylet.Prelude.{
  ℕ, Bool, true, false, ◌&&◌, Option, none, some, List, [], ◌∷◌, ltb, if◌then◌else◌, Result, ok,
  err,
}
use skylet.Prelude.Lists.{any}
use skylet.Prelude.Texts.{Text, text_eq}
use skylet.Prelude.Dict
use skylet.Prelude.Dict.{Dict}
use skylet.Policy.{
  ApprovalStatus, CapabilityType, CapabilityApproval, SecurityPolicyEngine, PolicyError, Clock,
  approved, expired, filesystem, network, command, database, secrets, custom, approval_not_found,
  or_nil, request_approval, approve, deny,
}

-- Derived equality.
unfoldable pub type_eq : CapabilityType → CapabilityType → Bool
type_eq filesystem filesystem = true
type_eq network network = true
type_eq command command = true
type_eq database database = true
type_eq secrets secrets = true
type_eq custom custom = true
type_eq _ _ = false

abbrev pub is_approved : ApprovalStatus → Bool
is_approved approved = true
is_approved _ = false

abbrev pub grants : CapabilityType → CapabilityApproval → Bool
grants t a = type_eq a.capability_type t && is_approved a.status

unfoldable pub get_approved_for_plugin : Text → SecurityPolicyEngine → List CapabilityApproval
get_approved_for_plugin plugin e = or_nil (Dict.lookup plugin e.approved_capabilities)

unfoldable pub is_capability_approved : Text → CapabilityType → SecurityPolicyEngine → Bool
unfolding type_eq
is_capability_approved plugin t e = elim (Dict.lookup plugin e.approved_capabilities) [
  | none ↦ false
  | some caps ↦ any (grants t) caps
]

-- `iter_mut().find(..)` with the assignment: none where no approval has the id.
unfoldable pub expire_first : Text → List CapabilityApproval → Option (List CapabilityApproval)
expire_first id [] = none
expire_first id (c ∷ cs) =
    let rest = expire_first id cs in
    if text_eq c.id id
    then some (record c { status = expired } ∷ cs)
    else elim rest [ none ↦ none | some l ↦ some (c ∷ l) ]

abbrev and_expire : Text → Option (List CapabilityApproval) → Option (List CapabilityApproval)
and_expire id none = none
and_expire id (some caps) = expire_first id caps

unfoldable pub revoke :
    Text → Text → SecurityPolicyEngine → SecurityPolicyEngine × Result (Unit {0}) PolicyError
unfolding expire_first
revoke plugin id e = elim (and_expire id (Dict.lookup plugin e.approved_capabilities)) [
  | none ↦ (e, err (approval_not_found id))
  | some caps ↦
      (record e { approved_capabilities = Dict.insert plugin caps e.approved_capabilities }, ok tt)
]

-- `exp > now`, and true without an expiration.
abbrev pub is_alive : ℕ → CapabilityApproval → Bool
is_alive now a = elim a.expires_at [ none ↦ true | some t ↦ ltb now t ]

unfoldable pub retain_alive : ℕ → Dict CapabilityApproval → Dict CapabilityApproval
retain_alive now [] = []
retain_alive now ((id, a) ∷ m) =
    let rest = retain_alive now m in if is_alive now a then (id, a) ∷ rest else rest

unfoldable pub expire_dead : ℕ → List CapabilityApproval → List CapabilityApproval
expire_dead now [] = []
expire_dead now (c ∷ cs) =
    (if is_alive now c then c else record c { status = expired }) ∷ expire_dead now cs

unfoldable pub expire_all : ℕ → Dict (List CapabilityApproval) → Dict (List CapabilityApproval)
unfolding expire_dead
expire_all now [] = []
expire_all now ((plugin, caps) ∷ m) = (plugin, expire_dead now caps) ∷ expire_all now m

unfoldable pub cleanup_expired : ℕ → SecurityPolicyEngine → SecurityPolicyEngine
unfolding retain_alive expire_all
cleanup_expired now e = record e {
  pending_approvals = retain_alive now e.pending_approvals;
  approved_capabilities = expire_all now e.approved_capabilities;
}

-- The operations that change the engine.
pub data Operation : Type 0 where
  request : Clock → (plugin : Text) → CapabilityType → (description : Text) → Operation
  accept reject withdraw : Text → Text → Operation
  cleanup : ℕ → Operation

unfoldable pub step : SecurityPolicyEngine → Operation → SecurityPolicyEngine
unfolding request_approval approve deny revoke cleanup_expired
step e (request clock plugin capability description) =
    (request_approval clock plugin capability description e).0
step e (accept id approver) = (approve id approver e).0
step e (reject id reason) = (deny id reason e).0
step e (withdraw plugin id) = (revoke plugin id e).0
step e (cleanup now) = cleanup_expired now e

unfoldable pub perform : SecurityPolicyEngine → List Operation → SecurityPolicyEngine
unfolding step
perform e [] = e
perform e (o ∷ os) = perform (step e o) os
