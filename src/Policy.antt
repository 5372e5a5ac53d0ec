-- ===== src/Policy.antt =====
-- abi/src/security_rfc/policy.rs: the approval workflow for capabilities. Clock readings, in
-- nanoseconds, are arguments of the operations that take them. An operation is a function of the
-- engine, which is what it does while no other call overlaps it; Overlap takes the limit test of
-- `request_approval` apart from the rest of it.
pub mod Review
pub mod Expiry
pub mod Approval
pub mod Limits
pub mod Overlap
use skylet.Prelude.{
  ℕ, zero, suc, ◌+◌, ◌/◌, ◌%◌, Bool, true, false, ◌&&◌, ◌||◌, Option, none, some, List, [], ◌∷◌,
  ◌++◌, ltb, leb, if◌then◌else◌, Result, ok, err, u64_mod,
}
use skylet.Prelude.Lists.{length, any, filter}
use skylet.Prelude.Texts.{Text, codes, text_eq}
use skylet.Prelude.Dict
use skylet.Prelude.Dict.{Dict}

pub data ApprovalStatus : Type 0 where
  pending approved denied auto_approved expired : ApprovalStatus

pub data RiskLevel : Type 0 where
  minimal low medium high critical : RiskLevel

-- abi/src/security_rfc/capabilities.rs
pub data CapabilityType : Type 0 where
  filesystem network command database secrets custom : CapabilityType

pub record CapabilityApproval : Type 0 where
  pub id : Text
  pub plugin_id : Text
  pub capability_type : CapabilityType
  pub description : Text
  pub status : ApprovalStatus
  pub created_at : ℕ
  pub expires_at : Option ℕ
  pub approver : Option Text
  pub denial_reason : Option Text
  pub risk_level : RiskLevel

pub record SecurityPolicy : Type 0 where
  pub auto_approve_minimal : Bool
  pub auto_approve_low : Bool
  pub require_mfa_for_high : Bool
  pub require_mfa_for_critical : Bool
  pub default_expiration : Option ℕ
  pub max_pending_per_plugin : ℕ

-- `Default for SecurityPolicy`: 30 days.
abbrev pub default_policy : SecurityPolicy
default_policy = record {
  auto_approve_minimal = true;
  auto_approve_low = true;
  require_mfa_for_high = true;
  require_mfa_for_critical = true;
  default_expiration = some 2592000000000000;
  max_pending_per_plugin = 10;
}

-- The engine, and the counter of `uuid_v4_short`, which is global in the source. The references to
-- the enforcers take no part in the workflow.
pub record SecurityPolicyEngine : Type 0 where
  pub pending_approvals : Dict CapabilityApproval
  pub approved_capabilities : Dict (List CapabilityApproval)
  pub policy : SecurityPolicy
  pub counter : ℕ

pub data PolicyError : Type 0 where
  approval_not_found : Text → PolicyError
  too_many_pending_requests : Text → ℕ → PolicyError
  capability_denied : Text → PolicyError
  mfa_required : PolicyError

-- `SecurityPolicyEngine::with_policy`
abbrev pub with_policy : SecurityPolicy → SecurityPolicyEngine
with_policy policy = record {
  pending_approvals = [];
  approved_capabilities = [];
  policy = policy;
  counter = 0;
}

abbrev hex_digit : ℕ → ℕ
hex_digit d = if ltb d 10 then d + 48 else d + 87

-- `{:0wx}` of a number that fits into `w` digits.
unfoldable pub hex : ℕ → ℕ → Text
hex zero n = []
hex (suc w) n = hex w (n / 16) ++ hex_digit (n % 16) ∷ []

-- `uuid_v4_short`, with the time and the counter that it reads.
unfoldable pub uuid_v4_short : ℕ → ℕ → Text
unfolding hex
uuid_v4_short timestamp count = hex 8 (timestamp % 4294967296) ++ hex 8 (count % 4294967296)

unfoldable pub assess_risk : CapabilityType → RiskLevel
assess_risk filesystem = medium
assess_risk network = medium
assess_risk command = high
assess_risk database = medium
assess_risk secrets = high
assess_risk custom = high

abbrev pub auto_applies : RiskLevel → SecurityPolicy → Bool
auto_applies minimal p = p.auto_approve_minimal
auto_applies low p = p.auto_approve_low
auto_applies _ p = false

abbrev pub or_nil : Option (List CapabilityApproval) → List CapabilityApproval
or_nil none = []
or_nil (some l) = l

-- `approved.entry(plugin_id).or_default().push(approval)`
unfoldable pub push_approved :
    CapabilityApproval → Dict (List CapabilityApproval) → Dict (List CapabilityApproval)
push_approved a m = Dict.insert a.plugin_id (or_nil (Dict.lookup a.plugin_id m) ++ a ∷ []) m

unfoldable pub pending_for : Text → Dict CapabilityApproval → List CapabilityApproval
pending_for plugin m = filter (λ a. text_eq a.plugin_id plugin) (Dict.values m)

-- `apply_approval`: what it applies to the enforcers is a message in the log.
unfoldable pub apply_approval :
    Text → SecurityPolicyEngine → SecurityPolicyEngine × Result (Unit {0}) PolicyError
unfolding push_approved
apply_approval id e = elim (Dict.lookup id e.pending_approvals) [
  | none ↦ (e, err (approval_not_found id))
  | some a ↦ (
    record e {
      pending_approvals = Dict.remove id e.pending_approvals;
      approved_capabilities = push_approved a e.approved_capabilities;
    },
    ok tt,
  )
]

-- The readings of the system clock and of the monotonic clock that a request takes, in their order.
pub record Clock : Type 0 where
  pub timestamp : ℕ
  pub created_at : ℕ
  pub now : ℕ

abbrev after_duration : ℕ → Option ℕ → Option ℕ
after_duration now none = none
after_duration now (some d) = some (now + d)

abbrev pub new_approval :
    Clock → Text → Text → CapabilityType → Text → SecurityPolicy → CapabilityApproval
new_approval clock id plugin capability description policy =
    let risk = assess_risk capability in
    let auto = auto_applies risk policy in
    record {
      id = id;
      plugin_id = plugin;
      capability_type = capability;
      description = description;
      status = if auto then auto_approved else pending;
      created_at = clock.created_at;
      expires_at = after_duration clock.now policy.default_expiration;
      approver = if auto then some (codes "auto") else none;
      denial_reason = none;
      risk_level = risk;
    }

abbrev pub approval_id : Clock → Text → SecurityPolicyEngine → Text
approval_id clock plugin e =
    codes "appr-" ++ (plugin ++ 45 ∷ uuid_v4_short clock.timestamp e.counter)

abbrev with_id :
    Text
    → SecurityPolicyEngine × Result (Unit {0}) PolicyError
    → SecurityPolicyEngine × Result Text PolicyError
with_id id (e, ok u) = (e, ok id)
with_id id (e, err x) = (e, err x)

-- `request_approval` after its limit test.
unfoldable pub file_request :
    Clock
    → Text
    → CapabilityType
    → Text
    → SecurityPolicyEngine
    → SecurityPolicyEngine × Result Text PolicyError
unfolding apply_approval assess_risk uuid_v4_short
file_request clock plugin capability description e =
    let id = approval_id clock plugin e in
    let a = new_approval clock id plugin capability description e.policy in
    let e' = record e {
      pending_approvals = Dict.insert id a e.pending_approvals;
      counter = (e.counter + 1) % u64_mod;
    } in
    if auto_applies (assess_risk capability) e.policy
    then with_id id (apply_approval id e')
    else (e', ok id)

-- The limit test of `request_approval`, under a read lock that is given back before the rest of it.
unfoldable pub within_limit : Text → SecurityPolicyEngine → Bool
unfolding pending_for
within_limit plugin e =
    ltb (length (pending_for plugin e.pending_approvals)) e.policy.max_pending_per_plugin

unfoldable pub request_approval :
    Clock
    → Text
    → CapabilityType
    → Text
    → SecurityPolicyEngine
    → SecurityPolicyEngine × Result Text PolicyError
unfolding within_limit file_request
request_approval clock plugin capability description e =
    if within_limit plugin e
    then file_request clock plugin capability description e
    else (e, err (too_many_pending_requests plugin e.policy.max_pending_per_plugin))

unfoldable pub approve :
    Text → Text → SecurityPolicyEngine → SecurityPolicyEngine × Result (Unit {0}) PolicyError
unfolding push_approved
approve id approver e = elim (Dict.lookup id e.pending_approvals) [
  | none ↦ (e, err (approval_not_found id))
  | some a ↦ (
    record e {
      pending_approvals = Dict.remove id e.pending_approvals;
      approved_capabilities =
          push_approved (record a { status = approved; approver = some approver })
            e.approved_capabilities;
    },
    ok tt,
  )
]

unfoldable pub deny :
    Text → Text → SecurityPolicyEngine → SecurityPolicyEngine × Result (Unit {0}) PolicyError
deny id reason e = elim (Dict.lookup id e.pending_approvals) [
  | none ↦ (e, err (approval_not_found id))
  | some a ↦ (
    record e {
      pending_approvals =
          Dict.adjust id (λ b. record b { status = denied; denial_reason = some reason })
            e.pending_approvals;
    },
    ok tt,
  )
]
