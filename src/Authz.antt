-- ===== src/Authz.antt =====
-- permissions/src/types.rs (permissions, roles, user contexts) and permissions/src/authz.rs (the
-- permission checker with its cache, the middleware, resource grants, the audit log). A reading of the
-- monotonic clock, in nanoseconds, is an argument of each operation that takes one. An operation is a
-- function of the state, which is what it does while no other call overlaps it; Overlap takes the steps
-- of `has_permission` apart.
pub mod Permissions
pub mod Caching
pub mod Overlap
pub mod Grants
pub mod Audit
use skylet.Prelude.{
  ℕ, zero, suc, ◌-◌, Bool, true, false, ◌&&◌, ◌||◌, not, Option, none, some, List, [], ◌∷◌, ◌++◌,
  map, ltb, leb, if◌then◌else◌, Result, ok, err,
}
use skylet.Prelude.Lists.{length, any, all, filter}
use skylet.Prelude.Texts.{Text, codes, text_eq, split, join, contains}
use skylet.Prelude.Dict
use skylet.Prelude.Dict.{Dict}

pub record Permission : Type 0 where
  pub namespace : Text
  pub resource : Text
  pub action : Text

-- `Permission::as_str`
unfoldable pub as_str : Permission → Text
as_str p = p.namespace ++ 58 ∷ (p.resource ++ 58 ∷ p.action)

abbrev of_parts : List Text → Option Permission
of_parts (a ∷ b ∷ c ∷ []) = some (record { namespace = a; resource = b; action = c })
of_parts _ = none

-- `Permission::try_parse`
unfoldable pub try_parse : Text → Option Permission
unfolding split
try_parse s = of_parts (split 58 s)

abbrev matches_part : Text → Text → Bool
matches_part value pattern = text_eq pattern (42 ∷ []) || text_eq value pattern

-- `Permission::matches`
unfoldable pub permission_matches : Permission → Permission → Bool
unfolding text_eq
permission_matches p pattern =
    matches_part p.namespace pattern.namespace
    && matches_part p.resource pattern.resource
    && matches_part p.action pattern.action

pub record Role : Type 0 where
  pub name : Text
  pub description : Option Text
  pub permissions : List Permission

-- `Role::has_permission`
unfoldable pub role_has_permission : Permission → Role → Bool
role_has_permission p r = any (permission_matches p) r.permissions

pub record UserContext : Type 0 where
  pub user_id : Text
  pub session_id : Text
  pub tenant_id : Option Text
  pub roles : List Text
  pub permissions : List Text
  pub metadata : Dict Text

abbrev parsed_matches : Permission → Option Permission → Bool
parsed_matches p none = false
parsed_matches p (some q) = permission_matches p q

-- `UserContext::has_permission`: permissions that do not parse are skipped.
unfoldable pub context_has_permission : UserContext → Permission → Bool
context_has_permission c p = any (λ s. parsed_matches p (try_parse s)) c.permissions

pub record CacheEntry : Type 0 where
  pub granted : Bool
  pub cached_at : ℕ

pub record PermissionCache : Type 0 where
  pub entries : Dict (Dict CacheEntry)
  pub ttl : ℕ

abbrev or_default {ℓ} : {V : Type ℓ} → Option (Dict V) → Dict V
or_default none = []
or_default (some d) = d

-- `entry.cached_at.elapsed() > self.ttl`; `elapsed` stops at 0.
abbrev entry_answer : ℕ → ℕ → Option CacheEntry → Option Bool
entry_answer now ttl none = none
entry_answer now ttl (some e) = if ltb ttl (now - e.cached_at) then none else some e.granted

-- `PermissionCache::get`
unfoldable pub cache_get : ℕ → Text → Permission → PermissionCache → Option Bool
cache_get now user p c =
    entry_answer now c.ttl (Dict.lookup (as_str p) (or_default (Dict.lookup user c.entries)))

-- `PermissionCache::set`
unfoldable pub cache_set : ℕ → Text → Permission → Bool → PermissionCache → PermissionCache
cache_set now user p granted c = record c {
  entries =
      Dict.insert user
        (Dict.insert (as_str p) (record { granted = granted; cached_at = now })
          (or_default (Dict.lookup user c.entries)))
        c.entries;
}

unfoldable pub invalidate_user : Text → PermissionCache → PermissionCache
invalidate_user user c = record c { entries = Dict.remove user c.entries }

unfoldable pub cache_clear : PermissionCache → PermissionCache
cache_clear c = record c { entries = [] }

pub record PermissionChecker : Type 0 where
  pub roles : Dict Role
  pub user_roles : Dict (List Text)
  pub cache : PermissionCache

abbrev permission : Text → Text → Text → Permission
permission a b c = record { namespace = a; resource = b; action = c }

abbrev pub admin_role : Role
admin_role = record {
  name = codes "admin";
  description = some (codes "Full administrative access");
  permissions = permission (codes "*") (codes "*") (codes "*") ∷ [];
}

abbrev pub user_role : Role
user_role = record {
  name = codes "user";
  description = some (codes "Standard user access");
  permissions =
      permission (codes "self") (codes "*") (codes "read")
      ∷ permission (codes "self") (codes "*") (codes "write")
      ∷ [];
}

abbrev pub guest_role : Role
guest_role = record {
  name = codes "guest";
  description = some (codes "Guest access");
  permissions = permission (codes "public") (codes "*") (codes "read") ∷ [];
}

-- `PermissionChecker::new`: the built-in roles, and a cache of 300 seconds.
abbrev pub new_checker : PermissionChecker
new_checker = record {
  roles =
      (codes "admin", admin_role) ∷ (codes "user", user_role) ∷ (codes "guest", guest_role) ∷ [];
  user_roles = [];
  cache = record { entries = []; ttl = 300000000000 };
}

unfoldable pub register_role : Role → PermissionChecker → PermissionChecker
register_role r c = record c { roles = Dict.insert r.name r c.roles }

unfoldable pub assign_roles : Text → List Text → PermissionChecker → PermissionChecker
assign_roles user names c = record c {
  user_roles = Dict.insert user names c.user_roles;
  cache = invalidate_user user c.cache;
}

-- `filter_map(|name| roles.get(name).cloned())`
unfoldable pub roles_named : Dict Role → List Text → List Role
roles_named roles [] = []
roles_named roles (n ∷ ns) =
    let rest = roles_named roles ns in
    elim (Dict.lookup n roles) [ none ↦ rest | some r ↦ r ∷ rest ]

abbrev names_or_none : Option (List Text) → List Text
names_or_none none = []
names_or_none (some ns) = ns

unfoldable pub get_user_roles : Text → PermissionChecker → List Role
get_user_roles user c = roles_named c.roles (names_or_none (Dict.lookup user c.user_roles))

unfoldable pub compute_permission : Text → Permission → PermissionChecker → Bool
compute_permission user p c = any (role_has_permission p) (get_user_roles user c)

-- The last step of `has_permission`, under the write lock of the cache.
unfoldable pub store_answer : ℕ → Text → Permission → Bool → PermissionChecker → PermissionChecker
unfolding cache_set
store_answer later user p granted c = record c { cache = cache_set later user p granted c.cache }

-- `has_permission`: the clock is read when the cache is read and, on a miss, when it is written. The
-- cache is not locked while the answer is computed.
unfoldable pub has_permission :
    ℕ → ℕ → Text → Permission → PermissionChecker → PermissionChecker × Bool
has_permission now later user p c = elim (cache_get now user p c.cache) [
  | some cached ↦ (c, cached)
  | none ↦
      let granted = compute_permission user p c in (store_answer later user p granted c, granted)
]

-- `any` stops at the first permission that is granted; the clock readings are a stream.
unfoldable pub has_any_permission :
    (ℕ → ℕ) → Text → List Permission → PermissionChecker → PermissionChecker × Bool
has_any_permission clock user [] c = (c, false)
has_any_permission clock user (p ∷ ps) c =
    let (c', granted) = has_permission (clock 0) (clock 1) user p c in
    let rest = has_any_permission (λ i. clock (suc (suc i))) user ps c' in
    if granted then (c', true) else rest

-- `all` stops at the first permission that is refused.
unfoldable pub has_all_permissions :
    (ℕ → ℕ) → Text → List Permission → PermissionChecker → PermissionChecker × Bool
has_all_permissions clock user [] c = (c, true)
has_all_permissions clock user (p ∷ ps) c =
    let (c', granted) = has_permission (clock 0) (clock 1) user p c in
    let rest = has_all_permissions (λ i. clock (suc (suc i))) user ps c' in
    if granted then rest else (c', false)

unfoldable pub invalidate_cache : Text → PermissionChecker → PermissionChecker
invalidate_cache user c = record c { cache = invalidate_user user c.cache }

unfoldable pub invalidate_all : PermissionChecker → PermissionChecker
invalidate_all c = record c { cache = cache_clear c.cache }

pub data AuthzError : Type 0 where
  permission_denied : (user permission : Text) → AuthzError
  invalid_context session_expired tenant_mismatch : AuthzError

-- `AuthorizationMiddleware::authorize`
unfoldable pub authorize :
    ℕ
    → ℕ
    → UserContext
    → Permission
    → PermissionChecker
    → PermissionChecker × Result (Unit {0}) AuthzError
authorize now later ctx p c =
    let (c', granted) = has_permission now later ctx.user_id p c in
    (c', if granted then ok tt else err (permission_denied ctx.user_id (as_str p)))

-- `AuthorizationMiddleware::authorize_any`
unfoldable pub authorize_any :
    (ℕ → ℕ)
    → UserContext
    → List Permission
    → PermissionChecker
    → PermissionChecker × Result (Unit {0}) AuthzError
authorize_any clock ctx ps c =
    let (c', granted) = has_any_permission clock ctx.user_id ps c in
    (
      c',
      if granted
          then ok tt
          else err (permission_denied ctx.user_id (join (codes ", ") (map as_str ps))),
    )
