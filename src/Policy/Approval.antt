-- ===== src/Policy/Approval.antt =====
-- Which operations of abi/src/security_rfc/policy.rs approve a capability.
use skylet.Prelude.{
  ◌≡◌, refl, sym, ◌∙◌, Bool, true, false, ◌&&◌, ◌||◌, Option, none, some, List, [], ◌∷◌, ◌++◌,
  arith, if◌then◌else◌, Option-cases, inl, inr,
}
use skylet.Prelude.Lists.{any}
use skylet.Prelude.Texts.{Text, text_eq, text_eq_iff, text_eq_refl}
use skylet.Prelude.Dict
use skylet.Prelude.Dict.{Dict, lookup-insert, lookup-remove, lookup-adjust}
use skylet.Policy.{
  ApprovalStatus, CapabilityType, CapabilityApproval, SecurityPolicy, SecurityPolicyEngine, Clock,
  approved, filesystem, network, command, database, secrets, custom, or_nil, request_approval,
  file_request, approve, deny, push_approved, assess_risk, with_policy,
}
use skylet.Policy.Review.{
  Operation, request, accept, reject, withdraw, cleanup, is_capability_approved,
  get_approved_for_plugin, grants, type_eq, step, perform,
}
use skylet.Policy.Expiry.{approved_any, revoke-narrows, any_narrows, cleanup_expired-approved}

any-append {ℓ} :
    {A : Type ℓ} (p : A → Bool) (xs ys : List A) → any p (xs ++ ys) ≡ (any p xs || any p ys)
any-append p [] ys = refl
any-append p (x ∷ xs) ys = ground (arith, any-append p xs ys)

-- Whether an operation is the approval of a request.
abbrev pub is_accept : Operation → Bool
is_accept (accept id approver) = true
is_accept _ = false

-- The pending request, if there is one, is for this plugin and this capability.
abbrev pub requests : Text → CapabilityType → Option CapabilityApproval → Bool
requests plugin t none = false
requests plugin t (some a) = text_eq a.plugin_id plugin && type_eq a.capability_type t

get_approved-push :
    (plugin : Text) (a : CapabilityApproval) (m : Dict (List CapabilityApproval))
    → or_nil (Dict.lookup plugin (push_approved a m)) ≡ (
        if text_eq a.plugin_id plugin
        then or_nil (Dict.lookup plugin m) ++ a ∷ []
        else or_nil (Dict.lookup plugin m))
unfolding push_approved
get_approved-push plugin a m = ground (
  arith,
  lookup-insert a.plugin_id plugin (or_nil (Dict.lookup a.plugin_id m) ++ a ∷ []) m,
  text_eq_iff a.plugin_id plugin,
)

same_approved :
    (plugin : Text) (t : CapabilityType) (e d : SecurityPolicyEngine)
    → d.approved_capabilities ≡ e.approved_capabilities
    → is_capability_approved plugin t d ≡ is_capability_approved plugin t e
unfolding is_capability_approved
same_approved plugin t e d h = rw h refl

request-same :
    (clock : Clock) (p d : Text) (c : CapabilityType) (e : SecurityPolicyEngine)
    → (request_approval clock p c d e).0.approved_capabilities ≡ e.approved_capabilities
unfolding request_approval file_request assess_risk
request-same clock p d filesystem e = ground arith
request-same clock p d network e = ground arith
request-same clock p d command e = ground arith
request-same clock p d database e = ground arith
request-same clock p d secrets e = ground arith
request-same clock p d custom e = ground arith

deny-same :
    (id reason : Text) (e : SecurityPolicyEngine)
    → (deny id reason e).0.approved_capabilities ≡ e.approved_capabilities
unfolding deny
deny-same id reason e = ground arith

approve-caps :
    (id approver plugin : Text) (a : CapabilityApproval) (e : SecurityPolicyEngine)
    → Dict.lookup id e.pending_approvals ≡ some a
    → get_approved_for_plugin plugin (approve id approver e).0 ≡ (
        if text_eq a.plugin_id plugin
        then get_approved_for_plugin plugin e
          ++ record a { status = approved; approver = some approver } ∷ []
        else get_approved_for_plugin plugin e)
unfolding approve get_approved_for_plugin
approve-caps id approver plugin a e found =
    rw (found, approve)
      (get_approved-push plugin (record a { status = approved; approver = some approver })
        e.approved_capabilities)

-- Approving a request approves exactly the capability that it asks for, for the plugin that asked, and
-- leaves every other one as it was; an id without a request changes nothing.
pub approve-grants :
    (id approver plugin : Text) (t : CapabilityType) (e : SecurityPolicyEngine)
    → is_capability_approved plugin t (approve id approver e).0 ≡ (
        is_capability_approved plugin t e || requests plugin t (Dict.lookup id e.pending_approvals))
approve-grants id approver plugin t e = elim (Option-cases (Dict.lookup id e.pending_approvals)) [
  | inl missing ↦
      same_approved plugin t e (approve id approver e).0 (unfold approve in ground (arith, missing))
      ∙ ground (arith, missing)
  | inr (a, found) ↦
      let a' : CapabilityApproval = record a { status = approved; approver = some approver } in
      let caps = get_approved_for_plugin plugin e in
      ground (
        arith,
        found,
        approved_any plugin t e,
        approved_any plugin t (approve id approver e).0,
        approve-caps id approver plugin a e found,
        any-append (grants t) caps (a' ∷ []),
      )
]

-- No operation but the approval of a request approves a capability.
pub step-grants_nothing :
    (o : Operation) (plugin : Text) (t : CapabilityType) (e : SecurityPolicyEngine)
    → is_accept o ≡ false
    → is_capability_approved plugin t (step e o) ≡ true
    → is_capability_approved plugin t e ≡ true
unfolding step
step-grants_nothing (accept id approver) plugin t e n h = ground arith
step-grants_nothing (request clock p c d) plugin t e n h =
    sym (same_approved plugin t e (request_approval clock p c d e).0 (request-same clock p d c e))
    ∙ h
step-grants_nothing (reject id reason) plugin t e n h =
    sym (same_approved plugin t e (deny id reason e).0 (deny-same id reason e)) ∙ h
step-grants_nothing (withdraw p id) plugin t e n h = revoke-narrows p plugin id t e h
step-grants_nothing (cleanup now) plugin t e n h = ground (
  arith,
  h,
  cleanup_expired-approved plugin t now e,
  approved_any plugin t e,
  any_narrows t now (get_approved_for_plugin plugin e),
)

deny-lookup :
    (id reason : Text) (a : CapabilityApproval) (e : SecurityPolicyEngine)
    → Dict.lookup id e.pending_approvals ≡ some a
    → Dict.lookup id (deny id reason e).0.pending_approvals
      ≡ some (record a { status = ApprovalStatus.denied; denial_reason = some reason })
unfolding deny
deny-lookup id reason a e found =
    rw (found, deny)
      (lookup-adjust id id
          (λ b. record b { status = ApprovalStatus.denied; denial_reason = some reason })
          e.pending_approvals
        ∙ rw (text_eq_refl id, found) refl)

type_eq_refl : (t : CapabilityType) → type_eq t t ≡ true
unfolding type_eq
type_eq_refl filesystem = refl
type_eq_refl network = refl
type_eq_refl command = refl
type_eq_refl database = refl
type_eq_refl secrets = refl
type_eq_refl custom = refl

nothing_granted :
    (plugin : Text) (t : CapabilityType) (os : List Operation) (e : SecurityPolicyEngine)
    → any is_accept os ≡ false
    → is_capability_approved plugin t e ≡ false
    → is_capability_approved plugin t (perform e os) ≡ false
unfolding perform
nothing_granted plugin t [] e n h = h
nothing_granted plugin t (o ∷ os) e n h =
    nothing_granted plugin t os (step e o) (ground (arith, n))
      (ground (arith, n, h, step-grants_nothing o plugin t e))

-- Whatever is requested, denied, revoked or cleaned up: as long as no request is approved, no plugin
-- has an approved capability.
pub perform-grants_nothing :
    (policy : SecurityPolicy) (os : List Operation) (plugin : Text) (t : CapabilityType)
    → any is_accept os ≡ false
    → is_capability_approved plugin t (perform (with_policy policy) os) ≡ false
perform-grants_nothing policy os plugin t n =
    nothing_granted plugin t os (with_policy policy) n
      (unfold is_capability_approved Dict.lookup in refl)

-- A request that was denied stays among the pending ones, and approving it afterwards still approves
-- its capability.
pub deny-then_approve :
    (id reason approver : Text) (a : CapabilityApproval) (e : SecurityPolicyEngine)
    → Dict.lookup id e.pending_approvals ≡ some a
    → is_capability_approved a.plugin_id a.capability_type
        (approve id approver (deny id reason e).0).0
      ≡ true
deny-then_approve id reason approver a e found = ground (
  arith,
  approve-grants id approver a.plugin_id a.capability_type (deny id reason e).0,
  deny-lookup id reason a e found,
  text_eq_refl a.plugin_id,
  type_eq_refl a.capability_type,
)
