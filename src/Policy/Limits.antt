-- ===== src/Policy/Limits.antt =====
-- How the steps of abi/src/security_rfc/policy.rs change the number of the pending requests of a plugin.
use skylet.Prelude.{
  ℕ, ◌+◌, ◌≤◌, ◌≡◌, refl, Bool, true, false, some, [], ◌∷◌, arith, ok, ◌%◌, u64_mod,
}
use skylet.Prelude.Lists.{length, filter}
use skylet.Prelude.Texts.{Text, text_eq}
use skylet.Prelude.Dict
use skylet.Prelude.Dict.{Dict, lookup-insert, lookup-remove, lookup-adjust}
use skylet.Policy.{
  ApprovalStatus, CapabilityType, CapabilityApproval, SecurityPolicy, SecurityPolicyEngine, Clock,
  filesystem, network, command, database, secrets, custom, auto_applies, approval_id, new_approval,
  file_request, approve, deny, assess_risk, pending_for,
}
use skylet.Policy.Review.{retain_alive, revoke, cleanup_expired}

-- How many of the values satisfy a test.
count {ℓ} : {V : Type ℓ} → (V → Bool) → Dict V → ℕ
count p m = length (filter p (Dict.values m))

abbrev pub one_if : Bool → ℕ
one_if true = 1
one_if false = 0

module _ {ℓ} {V : Type ℓ} (p : V → Bool) where
  count-insert :
      (k : Text) (v : V) (m : Dict V) → count p (Dict.insert k v m) ≤ one_if (p v) + count p m
  unfolding count Dict.insert
  count-insert k v [] = ground arith
  count-insert k v ((j, w) ∷ m) = ground (arith, count-insert k v m)

  count-remove : (k : Text) (m : Dict V) → count p (Dict.remove k m) ≤ count p m
  unfolding count Dict.remove
  count-remove k [] = ground arith
  count-remove k ((j, w) ∷ m) = ground (arith, count-remove k m)

  count-adjust :
      (k : Text) (f : V → V) (m : Dict V)
      → ((v : V) → p (f v) ≡ p v)
      → count p (Dict.adjust k f m) ≡ count p m
  unfolding count Dict.adjust
  count-adjust k f [] h = refl
  count-adjust k f ((j, w) ∷ m) h = ground (arith, count-adjust k f m h, h w)

count-retain :
    (p : CapabilityApproval → Bool) (now : ℕ) (m : Dict CapabilityApproval)
    → count p (retain_alive now m) ≤ count p m
unfolding count retain_alive
count-retain p now [] = ground arith
count-retain p now ((id, a) ∷ m) = ground (arith, count-retain p now m)

abbrev of_plugin : Text → CapabilityApproval → Bool
of_plugin plugin a = text_eq a.plugin_id plugin

pending-count :
    (plugin : Text) (m : Dict CapabilityApproval)
    → length (pending_for plugin m) ≡ count (of_plugin plugin) m
unfolding pending_for count
pending-count plugin m = refl

pub pending-insert :
    (q id : Text) (a : CapabilityApproval) (m : Dict CapabilityApproval)
    → length (pending_for q (Dict.insert id a m))
      ≤ one_if (text_eq a.plugin_id q) + length (pending_for q m)
pending-insert q id a m = omega (
  arith,
  pending-count q m,
  pending-count q (Dict.insert id a m),
  count-insert (of_plugin q) id a m,
)

pub approve-pending :
    (q id approver : Text) (e : SecurityPolicyEngine)
    → length (pending_for q (approve id approver e).0.pending_approvals)
      ≤ length (pending_for q e.pending_approvals)
unfolding approve
approve-pending q id approver e = ground (
  arith,
  count-remove (of_plugin q) id e.pending_approvals,
  pending-count q e.pending_approvals,
  pending-count q (Dict.remove id e.pending_approvals),
)

pub deny-pending :
    (q id reason : Text) (e : SecurityPolicyEngine)
    → length (pending_for q (deny id reason e).0.pending_approvals)
      ≡ length (pending_for q e.pending_approvals)
unfolding deny
deny-pending q id reason e =
    let f = λ (b : CapabilityApproval). record b {
      status = ApprovalStatus.denied;
      denial_reason = some reason;
    } in
    ground (
      arith,
      count-adjust (of_plugin q) id f e.pending_approvals (λ a. refl),
      pending-count q e.pending_approvals,
      pending-count q (Dict.adjust id f e.pending_approvals),
    )

pub cleanup-pending :
    (q : Text) (now : ℕ) (e : SecurityPolicyEngine)
    → length (pending_for q (cleanup_expired now e).pending_approvals)
      ≤ length (pending_for q e.pending_approvals)
unfolding cleanup_expired
cleanup-pending q now e = omega (
  arith,
  pending-count q e.pending_approvals,
  pending-count q (retain_alive now e.pending_approvals),
  count-retain (of_plugin q) now e.pending_approvals,
)

never_auto :
    (c : CapabilityType) (policy : SecurityPolicy) → auto_applies (assess_risk c) policy ≡ false
unfolding assess_risk
never_auto filesystem policy = refl
never_auto network policy = refl
never_auto command policy = refl
never_auto database policy = refl
never_auto secrets policy = refl
never_auto custom policy = refl

-- A filed request is pending, and nothing else changes but the counter.
pub file_lem :
    (clock : Clock) (p d : Text) (c : CapabilityType) (e : SecurityPolicyEngine)
    → file_request clock p c d e ≡ (
      record e {
        pending_approvals =
            Dict.insert
              (approval_id clock p e)
              (new_approval clock (approval_id clock p e) p c d e.policy)
              e.pending_approvals;
        counter = (e.counter + 1) % u64_mod;
      },
      ok (approval_id clock p e),
    )
unfolding file_request
file_lem clock p d c e = rw (never_auto c e.policy, file_request) refl

pub revoke-pending :
    (p id : Text) (e : SecurityPolicyEngine)
    → ((revoke p id e).0.pending_approvals ≡ e.pending_approvals)
      × ((revoke p id e).0.policy ≡ e.policy)
unfolding revoke
revoke-pending p id e = ground arith
