-- ===== src/Authz/Overlap.antt =====
-- Calls of the permission checker (permissions/src/authz.rs) that overlap: `has_permission` reads the cache,
-- computes and writes the cache in steps that other calls may come between.
use skylet.Prelude.{ℕ, ◌≡◌, ◌≢◌, refl, Bool, Option, none, some, List, [], ◌∷◌, zero, suc, ◌≤◌, ◌+◌}
use skylet.Prelude.Lists.{All}
use skylet.Prelude.Texts.{Text}
use skylet.Prelude.Dict
use skylet.Authz.{
  Permission, cache_get, PermissionChecker, invalidate_user, assign_roles, compute_permission,
  has_permission, store_answer, invalidate_cache, invalidate_all,
}
use skylet.Authz.Permissions.{IsPlain}
use skylet.Authz.Caching.{Agrees, cache_get-cache_set}

-- An answer that a call has computed and not yet written.
pub record Answer : Type 0 where
  pub user : Text
  pub asked : Permission
  pub granted : Bool

pub record System : Type 0 where
  pub checker : PermissionChecker
  pub pending : List Answer

-- The steps that change something. A call that missed the cache computes its answer at `compute`, at
-- whatever time its reading of the cache was, and stores the answer at an index of the pending ones at
-- `write`.
pub data Event : Type 0 where
  compute : (user : Text) (p : Permission) → Event
  write : (later index : ℕ) → Event
  assign : Text → List Text → Event
  forget : Text → Event
  forget_all : Event

abbrev answer_at : ℕ → List Answer → Option Answer
answer_at i [] = none
answer_at zero (a ∷ l) = some a
answer_at (suc i) (a ∷ l) = answer_at i l

abbrev drop_at : ℕ → List Answer → List Answer
drop_at i [] = []
drop_at zero (a ∷ l) = l
drop_at (suc i) (a ∷ l) = a ∷ drop_at i l

-- A `write` of an answer that is not there changes nothing.
unfoldable pub advance : Event → System → System
unfolding compute_permission store_answer assign_roles invalidate_cache invalidate_all
advance (compute user p) s = record s {
  pending =
      record { user = user; asked = p; granted = compute_permission user p s.checker } ∷ s.pending;
}
advance (write later i) s = elim (answer_at i s.pending) [
  | none ↦ s
  | some a ↦ record {
    checker = store_answer later a.user a.asked a.granted s.checker;
    pending = drop_at i s.pending;
  }
]
advance (assign user names) s = record s { checker = assign_roles user names s.checker }
advance (forget user) s = record s { checker = invalidate_cache user s.checker }
advance forget_all s = record s { checker = invalidate_all s.checker }

unfoldable pub advance_all : List Event → System → System
unfolding advance
advance_all [] s = s
advance_all (e ∷ es) s = advance_all es (advance e s)

abbrev pub initial : PermissionChecker → System
initial c = record { checker = c; pending = [] }

-- A call of `has_permission` that nothing overlaps is these steps.
pub has_permission_lem :
    (now later : ℕ) (user : Text) (p : Permission) (c : PermissionChecker)
    → cache_get now user p c.cache ≡ none
    → (has_permission now later user p c).0
      ≡ (advance_all (compute user p ∷ write later 0 ∷ []) (initial c)).checker
unfolding has_permission advance_all advance
has_permission_lem now later user p c missed = rw (missed, has_permission) refl

-- Computed permissions hold no colon, and a user's roles are assigned while no answer for the user is
-- pending.
abbrev IsClear : Event → System → Type 0
IsClear (compute user p) s = IsPlain p
IsClear (assign user names) s = All (λ a. a.user ≢ user) s.pending
IsClear _ s = Unit

abbrev pub AssignsClear : List Event → System → Type 0
AssignsClear [] s = Unit
AssignsClear (e ∷ es) s = IsClear e s × AssignsClear es (advance e s)

abbrev IsCurrent : PermissionChecker → Answer → Type 0
IsCurrent c a = IsPlain a.asked × (a.granted ≡ compute_permission a.user a.asked c)

-- What is cached and what is about to be is what the roles give now.
record IsSound (s : System) : Type 0 where
  agrees : Agrees s.checker
  current : All (IsCurrent s.checker) s.pending

-- Without that the answer can be out of date: a check computes an answer, the roles are assigned, the check
-- writes, and until the lifetime of the entry is over every check gets the answer of the old roles.
pub write-stale :
    (now later next : ℕ) (user : Text) (names : List Text) (p : Permission) (c : PermissionChecker)
    → now ≤ later + c.cache.ttl
    → (has_permission now next user p
        (advance_all
          (compute user p ∷ assign user names ∷ write later 0 ∷ [])
          (initial c)).checker).1
      ≡ compute_permission user p c
unfolding advance_all advance
write-stale now later next user names p c fresh =
    let c' = assign_roles user names c in
    let hit =
      cache_get-cache_set now later user p p (compute_permission user p c) c'.cache refl
        (unfold assign_roles invalidate_user in fresh) in
    unfold has_permission store_answer in rw (hit, has_permission) refl
