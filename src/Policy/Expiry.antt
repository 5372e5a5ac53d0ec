-- ===== src/Policy/Expiry.antt =====
-- How revocation and expiry in abi/src/security_rfc/policy.rs change the approved capabilities.
use skylet.Prelude.{
  ℕ, ◌≡◌, refl, ap, ◌∙◌, true, ◌&&◌, Option, none, some, List, [], ◌∷◌, arith, if◌then◌else◌,
  Option-cases, inl, inr,
}
use skylet.Prelude.Lists.{any}
use skylet.Prelude.Texts.{Text, text_eq, text_eq_iff}
use skylet.Prelude.Dict
use skylet.Prelude.Dict.{Dict, lookup-insert, lookup-remove, lookup-adjust}
use skylet.Policy.{CapabilityType, CapabilityApproval, SecurityPolicyEngine, or_nil}
use skylet.Policy.Review.{
  is_capability_approved, get_approved_for_plugin, grants, is_alive, expire_first, expire_dead,
  expire_all, revoke, cleanup_expired,
}

pub approved_any :
    (plugin : Text) (t : CapabilityType) (e : SecurityPolicyEngine)
    → is_capability_approved plugin t e ≡ any (grants t) (get_approved_for_plugin plugin e)
unfolding is_capability_approved get_approved_for_plugin
approved_any plugin t e = ground arith

any-expire_first :
    (t : CapabilityType) (id : Text) (cs ds : List CapabilityApproval)
    → expire_first id cs ≡ some ds
    → any (grants t) ds ≡ true
    → any (grants t) cs ≡ true
unfolding expire_first
any-expire_first t id [] ds h k = ground arith
any-expire_first t id (c ∷ cs) ds h k = elim (Option-cases (expire_first id cs)) [
  | inl e ↦ ground (arith, h, k, e)
  | inr (l, e) ↦ ground (arith, h, k, e, any-expire_first t id cs l e)
]

abbrev expired_or :
    List CapabilityApproval → Option (List CapabilityApproval) → List CapabilityApproval
expired_or cs none = cs
expired_or cs (some l) = l

revoke-caps :
    (plugin q id : Text) (e : SecurityPolicyEngine)
    → get_approved_for_plugin q (revoke plugin id e).0 ≡ (
        if text_eq plugin q
        then expired_or
            (get_approved_for_plugin plugin e)
            (expire_first id (get_approved_for_plugin plugin e))
        else get_approved_for_plugin q e)
unfolding revoke get_approved_for_plugin
revoke-caps plugin q id e = elim (Option-cases (Dict.lookup plugin e.approved_capabilities)) [
  | inl e1 ↦ unfold expire_first in ground (arith, e1, text_eq_iff plugin q)
  | inr (caps, e1) ↦ elim (Option-cases (expire_first id caps)) [
    | inl e2 ↦ ground (arith, e1, e2, text_eq_iff plugin q)
    | inr (l, e2) ↦
        ground
          (arith, e1, e2, text_eq_iff plugin q, lookup-insert plugin q l e.approved_capabilities)
  ]
]

pub revoke-narrows :
    (plugin q id : Text) (t : CapabilityType) (e : SecurityPolicyEngine)
    → is_capability_approved q t (revoke plugin id e).0 ≡ true
    → is_capability_approved q t e ≡ true
revoke-narrows plugin q id t e h =
    let caps = get_approved_for_plugin plugin e in
    let fact = ap (any (grants t)) (revoke-caps plugin q id e) in
    elim (Option-cases (expire_first id caps)) [
      | inl none_left ↦ ground (
        arith,
        h,
        approved_any q t e,
        approved_any q t (revoke plugin id e).0,
        fact,
        none_left,
        text_eq_iff plugin q,
      )
      | inr (l, changed) ↦ ground (
        arith,
        h,
        approved_any q t e,
        approved_any q t (revoke plugin id e).0,
        fact,
        changed,
        any-expire_first t id caps l changed,
        text_eq_iff plugin q,
      )
    ]

any-expire_dead :
    (t : CapabilityType) (now : ℕ) (cs : List CapabilityApproval)
    → any (grants t) (expire_dead now cs) ≡ any (λ a. grants t a && is_alive now a) cs
unfolding expire_dead
any-expire_dead t now [] = refl
any-expire_dead t now (c ∷ cs) = ground (arith, any-expire_dead t now cs)

pub any_narrows :
    (t : CapabilityType) (now : ℕ) (cs : List CapabilityApproval)
    → any (λ a. grants t a && is_alive now a) cs ≡ true
    → any (grants t) cs ≡ true
any_narrows t now [] h = h
any_narrows t now (c ∷ cs) h = ground (arith, h, any_narrows t now cs)

expire_all-lookup :
    (plugin : Text) (now : ℕ) (m : Dict (List CapabilityApproval))
    → or_nil (Dict.lookup plugin (expire_all now m))
      ≡ expire_dead now (or_nil (Dict.lookup plugin m))
unfolding expire_all Dict.lookup
expire_all-lookup plugin now [] = unfold expire_dead in refl
expire_all-lookup plugin now ((q, caps) ∷ m) = ground (arith, expire_all-lookup plugin now m)

-- After a cleanup the approved capabilities are those of the approvals that have not expired.
pub cleanup_expired-approved :
    (plugin : Text) (t : CapabilityType) (now : ℕ) (e : SecurityPolicyEngine)
    → is_capability_approved plugin t (cleanup_expired now e)
      ≡ any (λ a. grants t a && is_alive now a) (get_approved_for_plugin plugin e)
unfolding cleanup_expired get_approved_for_plugin
cleanup_expired-approved plugin t now e =
    approved_any plugin t (cleanup_expired now e)
    ∙ ap (any (grants t))
        (unfold get_approved_for_plugin in expire_all-lookup plugin now e.approved_capabilities)
    ∙ any-expire_dead t now (or_nil (Dict.lookup plugin e.approved_capabilities))
