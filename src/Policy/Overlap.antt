-- ===== src/Policy/Overlap.antt =====
-- Calls of `request_approval` (abi/src/security_rfc/policy.rs) that overlap: the limit is tested under one lock
-- and the request is filed under another one, and other calls may come in between.
use skylet.Prelude.{
  ℕ, zero, suc, ◌+◌, ◌≤◌, ◌≡◌, refl, ◌∙◌, ◌&&◌, Option, none, some, List, [], ◌∷◌, arith, leb,
  if◌then◌else◌, Option-cases, Bool-cases, inl, inr,
}
use skylet.Prelude.Lists.{length, filter, length-filter-le}
use skylet.Prelude.Texts.{Text, codes, text_eq, text_eq_iff}
use skylet.Prelude.Dict
use skylet.Policy.{
  CapabilityType, SecurityPolicy, SecurityPolicyEngine, Clock, new_approval, approval_id, network,
  default_policy, within_limit, request_approval, file_request, approve, deny, pending_for,
  with_policy,
}
use skylet.Policy.Review.{revoke, cleanup_expired}
use skylet.Policy.Limits.{
  one_if, pending-insert, approve-pending, deny-pending, cleanup-pending, revoke-pending, file_lem,
}

-- The engine, and the plugins whose requests passed the limit test and are not filed yet.
pub record System : Type 0 where
  pub engine : SecurityPolicyEngine
  pub admitted : List Text

pub data Event : Type 0 where
  admit : (plugin : Text) → Event
  file : (index : ℕ) (clock : Clock) (capability : CapabilityType) (description : Text) → Event
  accept reject withdraw : Text → Text → Event
  cleanup : ℕ → Event

abbrev plugin_at : ℕ → List Text → Option Text
plugin_at i [] = none
plugin_at zero (a ∷ l) = some a
plugin_at (suc i) (a ∷ l) = plugin_at i l

abbrev drop_at : ℕ → List Text → List Text
drop_at i [] = []
drop_at zero (a ∷ l) = l
drop_at (suc i) (a ∷ l) = a ∷ drop_at i l

-- At most `n + 1` requests are under way at a time. A request that fails the test, or that is filed
-- without having passed it, changes nothing.
unfoldable pub advance : ℕ → Event → System → System
unfolding within_limit file_request approve deny revoke cleanup_expired
advance n (admit plugin) s =
    if leb (length s.admitted) n && within_limit plugin s.engine
    then record s { admitted = plugin ∷ s.admitted }
    else s
advance n (file i clock capability description) s = elim (plugin_at i s.admitted) [
  | none ↦ s
  | some plugin ↦ record {
    engine = (file_request clock plugin capability description s.engine).0;
    admitted = drop_at i s.admitted;
  }
]
advance n (accept id approver) s = record s { engine = (approve id approver s.engine).0 }
advance n (reject id reason) s = record s { engine = (deny id reason s.engine).0 }
advance n (withdraw plugin id) s = record s { engine = (revoke plugin id s.engine).0 }
advance n (cleanup now) s = record s { engine = cleanup_expired now s.engine }

unfoldable pub advance_all : ℕ → List Event → System → System
unfolding advance
advance_all n [] s = s
advance_all n (e ∷ es) s = advance_all n es (advance n e s)

abbrev pub initial : SecurityPolicy → System
initial policy = record { engine = with_policy policy; admitted = [] }

-- A call of `request_approval` that nothing overlaps is these steps.
pub request_approval_lem :
    (clock : Clock) (p d : Text) (c : CapabilityType) (e : SecurityPolicyEngine)
    → (request_approval clock p c d e).0
      ≡ (advance_all 0
          (admit p ∷ file 0 clock c d ∷ [])
          (record { engine = e; admitted = [] })).engine
unfolding request_approval advance_all advance
request_approval_lem clock p d c e = elim (Bool-cases (within_limit p e)) [
  | inl within ↦ rw within refl
  | inr full ↦ rw full refl
]

-- How often a plugin is among the admitted ones.
abbrev waiting : Text → List Text → ℕ
waiting q l = length (filter (λ p. text_eq p q) l)

waiting-drop_at :
    (q p : Text) (i : ℕ) (l : List Text)
    → plugin_at i l ≡ some p
    → waiting q l ≡ one_if (text_eq p q) + waiting q (drop_at i l)
waiting-drop_at q p i [] e = ground (arith, e)
waiting-drop_at q p zero (a ∷ l) e = ground (arith, e)
waiting-drop_at q p (suc i) (a ∷ l) e = ground (arith, waiting-drop_at q p i l e)

-- The pending requests of a plugin and those under way go beyond the limit by `n` at most.
record IsBounded (n : ℕ) (policy : SecurityPolicy) (s : System) : Type 0 where
  same : s.engine.policy ≡ policy
  bound :
      (q : Text)
      → length (pending_for q s.engine.pending_approvals) + waiting q s.admitted
        ≤ policy.max_pending_per_plugin + n

admit-IsBounded :
    (n : ℕ) (policy : SecurityPolicy) (p : Text) (s : System)
    → IsBounded n policy s
    → IsBounded n policy (advance n (admit p) s)
unfolding advance within_limit
admit-IsBounded n policy p s h = record {
  same = ground (arith, h.same);
  bound = λ q.
      ground
        (arith, h.same, h.bound q, text_eq_iff p q, length-filter-le (λ a. text_eq a q) s.admitted);
}

file-IsBounded :
    (n : ℕ) (policy : SecurityPolicy) (i : ℕ) (clock : Clock) (c : CapabilityType) (d : Text)
    (s : System)
    → IsBounded n policy s
    → IsBounded n policy (advance n (file i clock c d) s)
unfolding advance
file-IsBounded n policy i clock c d s h = elim (Option-cases (plugin_at i s.admitted)) [
  | inl e ↦ rw (e, advance) h
  | inr (p, e) ↦
      let id = approval_id clock p s.engine in
      let a = new_approval clock id p c d s.engine.policy in
      rw (e, advance)
        record {
          same = rw (file_lem clock p d c s.engine) h.same;
          bound = λ q. rw (file_lem clock p d c s.engine) omega (
            arith,
            h.bound q,
            waiting-drop_at q p i s.admitted e,
            pending-insert q id a s.engine.pending_approvals,
          );
        }
]

advance-IsBounded :
    (n : ℕ) (policy : SecurityPolicy) (e : Event) (s : System)
    → IsBounded n policy s
    → IsBounded n policy (advance n e s)
unfolding advance
advance-IsBounded n policy (admit p) s h = admit-IsBounded n policy p s h
advance-IsBounded n policy (file i clock c d) s h = file-IsBounded n policy i clock c d s h
advance-IsBounded n policy (accept id approver) s h = record {
  same = unfold approve in ground (arith, h.same);
  bound = λ q. omega (arith, h.bound q, approve-pending q id approver s.engine);
}
advance-IsBounded n policy (reject id reason) s h = record {
  same = unfold deny in ground (arith, h.same);
  bound = λ q. omega (arith, h.bound q, deny-pending q id reason s.engine);
}
advance-IsBounded n policy (withdraw p id) s h = record {
  same = (revoke-pending p id s.engine).1 ∙ h.same;
  bound = λ q. rw ((revoke-pending p id s.engine).0) (h.bound q);
}
advance-IsBounded n policy (cleanup now) s h = record {
  same = unfold cleanup_expired in h.same;
  bound = λ q. omega (arith, h.bound q, cleanup-pending q now s.engine);
}

advance_all-IsBounded :
    (n : ℕ) (policy : SecurityPolicy) (es : List Event) (s : System)
    → IsBounded n policy s
    → IsBounded n policy (advance_all n es s)
unfolding advance_all
advance_all-IsBounded n policy [] s h = h
advance_all-IsBounded n policy (e ∷ es) s h =
    advance_all-IsBounded n policy es (advance n e s) (advance-IsBounded n policy e s h)

-- On a new engine, with at most `n + 1` requests under way at a time, their tests and insertions and the
-- other operations in any order: no plugin ever has more pending requests, the denied ones included, than
-- what the policy allows plus `n`. So the limit is kept when requests do not overlap, where `n` is 0.
pub advance_all-bound :
    (n : ℕ) (policy : SecurityPolicy) (events : List Event) (plugin : Text)
    → length (pending_for plugin (advance_all n events (initial policy)).engine.pending_approvals)
      ≤ policy.max_pending_per_plugin + n
advance_all-bound n policy events plugin =
    let h =
      (advance_all-IsBounded n policy events (initial policy)
          (record { same = refl; bound = λ q. unfold pending_for in omega arith })).bound
        plugin in
    omega (arith, h)

-- Two requests at the last free place of the plugin pass the test together, and the limit of 1 is
-- exceeded.
pub two_exceed :
    let policy = record default_policy { max_pending_per_plugin = 1 } in
    let clock : Clock = record { timestamp = 7; created_at = 8; now = 9 } in
    let mail = codes "mail" in
    let events = admit mail ∷ admit mail ∷ file 0 clock network [] ∷ file 0 clock network [] ∷ [] in
    length (pending_for mail (advance_all 1 events (initial policy)).engine.pending_approvals) ≡ 2
unfolding advance_all advance within_limit pending_for file_request Dict.insert Dict.lookup text_eq
two_exceed = refl
