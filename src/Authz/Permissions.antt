-- ===== src/Authz/Permissions.antt =====
-- Permissions and roles of permissions/src/types.rs: matching, and their text form.
use skylet.Prelude.{◌≡◌, ◌↔◌, ◌⊎◌, true, some, [], ◌∷◌, ◌++◌, arith}
use skylet.Prelude.Texts.{Text, text_eq_iff}
use skylet.Prelude.Texts.Laws.{Lacks, split-Lacks, split-append}
use skylet.Authz.{
  Permission, as_str, try_parse, permission_matches, role_has_permission, admin_role,
}

-- A part of a pattern is the wildcard, or the value itself.
abbrev pub PartMatches : Text → Text → Type 0
PartMatches value pattern = (pattern ≡ 42 ∷ []) ⊎ (value ≡ pattern)

-- A permission matches a pattern exactly when each of its three parts does.
pub permission_matches_iff :
    (p pattern : Permission)
    → (permission_matches p pattern ≡ true) ↔ (
        PartMatches p.namespace pattern.namespace
        × PartMatches p.resource pattern.resource
        × PartMatches p.action pattern.action)
permission_matches_iff p pattern =
    unfold permission_matches in
    ground (
      arith,
      text_eq_iff pattern.namespace (42 ∷ []),
      text_eq_iff pattern.resource (42 ∷ []),
      text_eq_iff pattern.action (42 ∷ []),
      text_eq_iff p.namespace pattern.namespace,
      text_eq_iff p.resource pattern.resource,
      text_eq_iff p.action pattern.action,
    )

-- No part holds a colon.
pub record IsPlain (p : Permission) : Type 0 where
  pub namespace : Lacks 58 p.namespace
  pub resource : Lacks 58 p.resource
  pub action : Lacks 58 p.action

-- Parsing the text of a permission gives it back, if no part of it holds a colon.
pub try_parse-as_str : (p : Permission) → IsPlain p → try_parse (as_str p) ≡ some p
unfolding try_parse as_str
try_parse-as_str p h = ground (
  arith,
  split-append 58 p.namespace (p.resource ++ 58 ∷ p.action) h.namespace,
  split-append 58 p.resource p.action h.resource,
  split-Lacks 58 p.action h.action,
)

-- Permissions without colons have different texts.
pub as_str-injective : (p q : Permission) → IsPlain p → IsPlain q → as_str p ≡ as_str q → p ≡ q
as_str-injective p q h k e = cc (try_parse-as_str p h, try_parse-as_str q k)

-- The admin role grants every permission.
pub admin_role-grants : (p : Permission) → role_has_permission p admin_role ≡ true
unfolding role_has_permission permission_matches
admin_role-grants p = ground arith
