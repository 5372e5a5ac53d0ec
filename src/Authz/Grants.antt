-- ===== src/Authz/Grants.antt =====
-- Resource grants of permissions/src/authz.rs: `ResourceAccessControl`.
use skylet.Prelude.{
  ◌≡◌, Bool, false, ◌||◌, ◌&&◌, not, Option, none, some, List, [], ◌∷◌, ◌++◌, arith, if◌then◌else◌,
  Option-cases, inl, inr,
}
use skylet.Prelude.Lists.{filter}
use skylet.Prelude.Texts.{Text, text_eq, text_eq_iff, contains}
use skylet.Prelude.Dict
use skylet.Prelude.Dict.{Dict, lookup-nil, lookup-insert, lookup-adjust}
use skylet.Authz.{Permission}

pub record ResourcePermission : Type 0 where
  pub resource_type : Text
  pub resource_id : Text
  pub action : Text

unfoldable pub as_permission : ResourcePermission → Permission
as_permission r = record {
  namespace = r.resource_type;
  resource = r.resource_id;
  action = r.action;
}

-- user, resource key, actions
abbrev pub Grants : Type 0
Grants = Dict (Dict (List Text))

-- `format!("{}:{}", resource_type, resource_id)`
unfoldable pub resource_key : ResourcePermission → Text
resource_key r = r.resource_type ++ 58 ∷ r.resource_id

abbrev value_or_default {ℓ} : {A : Type ℓ} → Option (List A) → List A
value_or_default none = []
value_or_default (some l) = l

unfoldable pub grant : Text → ResourcePermission → Grants → Grants
grant user r g =
    let user_perms = value_or_default (Dict.lookup user g) in
    let actions = value_or_default (Dict.lookup (resource_key r) user_perms) in
    let actions' = if contains r.action actions then actions else actions ++ r.action ∷ [] in
    Dict.insert user (Dict.insert (resource_key r) actions' user_perms) g

unfoldable pub revoke : Text → ResourcePermission → Grants → Grants
revoke user r g =
    Dict.adjust user
      (λ user_perms.
        Dict.adjust (resource_key r) (filter (λ a. not (text_eq a r.action))) user_perms)
      g

unfoldable pub granted_actions : Text → ResourcePermission → Grants → List Text
granted_actions user r g =
    value_or_default (Dict.lookup (resource_key r) (value_or_default (Dict.lookup user g)))

-- `ResourceAccessControl::check`
unfoldable pub check : Text → ResourcePermission → Grants → Bool
check user r g =
    let actions = granted_actions user r g in
    contains r.action actions || contains (42 ∷ []) actions

contains-snoc :
    (a b : Text) (l : List Text) → contains a (l ++ b ∷ []) ≡ (contains a l || text_eq a b)
contains-snoc a b [] = ground arith
contains-snoc a b (x ∷ l) = ground (arith, contains-snoc a b l)

contains-filter :
    (a b : Text) (l : List Text)
    → contains a (filter (λ x. not (text_eq x b)) l) ≡ (if text_eq a b then false else contains a l)
contains-filter a b [] = ground arith
contains-filter a b (x ∷ l) =
    ground (arith, contains-filter a b l, text_eq_iff a x, text_eq_iff x b, text_eq_iff a b)

granted_actions-grant :
    (user v : Text) (r q : ResourcePermission) (g : Grants)
    → granted_actions v q (grant user r g) ≡ (
        if text_eq user v && text_eq (resource_key r) (resource_key q)
        then (if contains r.action (granted_actions user r g)
            then granted_actions user r g
            else granted_actions user r g ++ r.action ∷ [])
        else granted_actions v q g)
unfolding grant granted_actions
granted_actions-grant user v r q g =
    let perms = value_or_default (Dict.lookup user g) in
    let old = value_or_default (Dict.lookup (resource_key r) perms) in
    let actions = if contains r.action old then old else old ++ r.action ∷ [] in
    ground (
      arith,
      lookup-insert user v (Dict.insert (resource_key r) actions perms) g,
      lookup-insert (resource_key r) (resource_key q) actions perms,
      text_eq_iff user v,
    )

granted_actions-revoke :
    (user v : Text) (r q : ResourcePermission) (g : Grants)
    → granted_actions v q (revoke user r g) ≡ (
        if text_eq user v && text_eq (resource_key r) (resource_key q)
        then filter (λ a. not (text_eq a r.action)) (granted_actions v q g)
        else granted_actions v q g)
unfolding revoke granted_actions
granted_actions-revoke user v r q g =
    let drop = λ (l : List Text). filter (λ a. not (text_eq a r.action)) l in
    let inner = λ (perms : Dict (List Text)). Dict.adjust (resource_key r) drop perms in
    elim (Option-cases (Dict.lookup v g)) [
      | inl absent ↦
          ground (arith, lookup-adjust user v inner g, lookup-nil {V = List Text} (resource_key q))
      | inr (perms, present) ↦ ground (
        arith,
        lookup-adjust user v inner g,
        lookup-adjust (resource_key r) (resource_key q) drop perms,
      )
    ]

same_actions :
    (user v : Text) (r q : ResourcePermission) (g : Grants)
    → user ≡ v
    → resource_key r ≡ resource_key q
    → granted_actions user r g ≡ granted_actions v q g
unfolding granted_actions
same_actions user v r q g e k = cc

-- After a grant a check passes if it passed before, or if it is by the same user, for a resource of
-- the same key, and for the granted action; a grant of the action `*` passes every action.
pub check-grant :
    (user v : Text) (r q : ResourcePermission) (g : Grants)
    → check v q (grant user r g) ≡ (
        check v q g
        || (text_eq user v
            && text_eq (resource_key r) (resource_key q)
            && (text_eq q.action r.action || text_eq (42 ∷ []) r.action)))
unfolding check
check-grant user v r q g = ground (
  arith,
  granted_actions-grant user v r q g,
  same_actions user v r q g,
  contains-snoc q.action r.action (granted_actions user r g),
  contains-snoc (42 ∷ []) r.action (granted_actions user r g),
  text_eq_iff user v,
  text_eq_iff (resource_key r) (resource_key q),
  text_eq_iff q.action r.action,
  text_eq_iff (42 ∷ []) r.action,
)

-- After a revocation a check of the same user for a resource of the same key passes only by the
-- action `*`, unless that is the action revoked; other checks are as before.
pub check-revoke :
    (user v : Text) (r q : ResourcePermission) (g : Grants)
    → check v q (revoke user r g) ≡ (
        if text_eq user v && text_eq (resource_key r) (resource_key q)
        then ((not (text_eq q.action r.action) && contains q.action (granted_actions v q g))
            || (not (text_eq (42 ∷ []) r.action) && contains (42 ∷ []) (granted_actions v q g)))
        else check v q g)
unfolding check
check-revoke user v r q g = ground (
  arith,
  granted_actions-revoke user v r q g,
  contains-filter q.action r.action (granted_actions v q g),
  contains-filter (42 ∷ []) r.action (granted_actions v q g),
)
