-- ===== src/Authz/Caching.antt =====
-- The permission cache of permissions/src/authz.rs: when an answer is the one that the roles give.
use skylet.Prelude.{
  ℕ, ◌-◌, ◌≤◌, ◌≡◌, Bool, Option, none, some, arith, Option-cases, inl, inr, if◌then◌else◌, leb,
  ◌+◌,
}
use skylet.Prelude.Texts.{Text, text_eq, text_eq_iff}
use skylet.Prelude.Dict
use skylet.Prelude.Dict.{lookup-insert, lookup-remove}
use skylet.Authz.{
  Permission, as_str, Role, CacheEntry, PermissionCache, or_default, cache_get, cache_set,
  invalidate_user, PermissionChecker, register_role, compute_permission, get_user_roles,
  has_permission, store_answer,
}
use skylet.Authz.Permissions.{IsPlain}

-- The entry of the cache for a user and a permission's text.
abbrev pub entry : Text → Permission → PermissionCache → Option CacheEntry
entry user p c = Dict.lookup (as_str p) (or_default (Dict.lookup user c.entries))

pub entry-cache_set :
    (now : ℕ) (user v : Text) (p q : Permission) (granted : Bool) (c : PermissionCache)
    → entry v q (cache_set now user p granted c) ≡ (
        if text_eq user v
        then (if text_eq (as_str p) (as_str q)
            then some (record { granted = granted; cached_at = now })
            else entry v q c)
        else entry v q c)
unfolding cache_set
entry-cache_set now user v p q granted c =
    let d = or_default (Dict.lookup user c.entries) in
    let e : CacheEntry = record { granted = granted; cached_at = now } in
    ground (
      arith,
      lookup-insert user v (Dict.insert (as_str p) e d) c.entries,
      lookup-insert (as_str p) (as_str q) e d,
      text_eq_iff user v,
    )

pub entry-invalidate_user :
    (user v : Text) (q : Permission) (c : PermissionCache)
    → entry v q (invalidate_user user c) ≡ (if text_eq user v then none else entry v q c)
unfolding invalidate_user Dict.lookup
entry-invalidate_user user v q c = ground (arith, lookup-remove user v c.entries)

-- The cached answers for permissions without colons are those that the roles give now.
pub record Agrees (c : PermissionChecker) : Type 0 where
  pub at :
      (v : Text) (q : Permission) (e : CacheEntry)
      → IsPlain q
      → entry v q c.cache ≡ some e
      → e.granted ≡ compute_permission v q c

cached_entry :
    (now : ℕ) (user : Text) (p : Permission) (c : PermissionCache) (answer : Bool)
    → cache_get now user p c ≡ some answer
    → (e : CacheEntry) × (entry user p c ≡ some e) × (e.granted ≡ answer)
unfolding cache_get
cached_entry now user p c answer h = ground arith

-- With a cache that agrees, the answer is the one that the roles give.
pub has_permission-Agrees :
    (now later : ℕ) (user : Text) (p : Permission) (c : PermissionChecker)
    → IsPlain p
    → Agrees c
    → (has_permission now later user p c).1 ≡ compute_permission user p c
unfolding has_permission
has_permission-Agrees now later user p c plain h =
    elim (Option-cases (cache_get now user p c.cache)) [
      | inl e ↦ ground arith
      | inr (answer, e) ↦
          let (x, found, same) = cached_entry now user p c.cache answer e in
          ground (arith, h.at user p x plain found)
    ]

-- Registering a role leaves the cache as it is: within its lifetime a cached answer is given whatever
-- the roles say now, and afterwards the roles are asked again.
pub register_role-stale :
    (now later : ℕ) (user : Text) (p : Permission) (r : Role) (c : PermissionChecker)
    (e : CacheEntry)
    → entry user p c.cache ≡ some e
    → (has_permission now later user p (register_role r c)).1 ≡ (
        if leb (now - e.cached_at) c.cache.ttl
        then e.granted
        else compute_permission user p (register_role r c))
unfolding has_permission register_role cache_get compute_permission get_user_roles
register_role-stale now later user p r c e found = ground arith

pub cache_get-cache_set :
    (now later : ℕ) (user : Text) (p q : Permission) (granted : Bool) (c : PermissionCache)
    → as_str p ≡ as_str q
    → now ≤ later + c.ttl
    → cache_get now user q (cache_set later user p granted c) ≡ some granted
unfolding cache_get cache_set
cache_get-cache_set now later user p q granted c same fresh = ground (
  arith,
  entry-cache_set later user user p q granted c,
  text_eq_iff user user,
  text_eq_iff (as_str p) (as_str q),
)

-- The cache is keyed by the text of a permission: a permission whose text is that of another one
-- gets the other one's answer while that is cached, whatever the roles say of it.
pub same_text_answers :
    (now later : ℕ) (now' later' : ℕ) (user : Text) (p q : Permission) (c : PermissionChecker)
    → as_str p ≡ as_str q
    → cache_get now user p c.cache ≡ none
    → now' ≤ later + c.cache.ttl
    → (has_permission now' later' user q (has_permission now later user p c).0).1
      ≡ compute_permission user p c
same_text_answers now later now' later' user p q c same missed fresh =
    let granted = compute_permission user p c in
    let hit = cache_get-cache_set now' later user p q granted c.cache same fresh in
    unfold has_permission in
    rw (missed, has_permission) (unfold store_answer in rw (hit, has_permission))
