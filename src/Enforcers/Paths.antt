-- ===== src/Enforcers/Paths.antt =====
-- What the file system enforcer of abi/src/security_rfc/filesystem.rs lets a plugin open: the paths that
-- a pattern covers, and the permissions that count after any calls.
use skylet.Prelude.{
  ◌≡◌, ◌↔◌, refl, sym, ap, ◌∙◌, Bool, true, false, ◌||◌, none, some, List, [], ◌∷◌, ◌++◌, arith,
  is_ok, if◌then◌else◌, Bool-cases, Option-cases, inl, inr,
}
use mathlib.Core.List.{append_assoc, append-nil}
use skylet.Prelude.Lists.{any}
use skylet.Prelude.Texts.{
  Text, text_eq, text_eq_iff, codes, starts_with, ends_with, strip_prefix, strip_suffix,
}
use skylet.Prelude.Texts.Search.{starts_with_iff, strip_prefix_iff, strip_suffix_iff, ends_with_iff}
use skylet.Prelude.Dict
use skylet.Prelude.Dict.{lookup-insert, lookup-remove}
use skylet.Enforcers.{FilesystemAccessMode}
use skylet.Enforcers.Filesystem.{
  PathPermission, FilesystemEnforcer, register_permissions, add_permission, remove_plugin,
  permissions_of, resolve_vfs_path, path_matches, permits, is_global, check_access,
}

-- The paths of a pattern.
pub data Covers (pattern path : Text) : Type 0 where
  everything : pattern ≡ codes "*" → Covers pattern path
  below_star : (d rest : Text) → pattern ≡ d ++ codes "/*" → path ≡ d ++ rest → Covers pattern path
  below_slash :
      (d rest : Text) → pattern ≡ d ++ codes "/" → path ≡ pattern ++ rest → Covers pattern path
  same : path ≡ pattern → Covers pattern path
  inside : (rest : Text) → path ≡ pattern ++ (codes "/" ++ rest) → Covers pattern path

-- The tests behind the two that look at the end of a pattern.
abbrev plain_match : Text → Text → Bool
plain_match path pattern = if text_eq path pattern then true else elim (strip_prefix pattern path) [
  | none ↦ false
  | some rest ↦ starts_with (codes "/") rest
]

plain_match-Covers : (path pattern : Text) → plain_match path pattern ≡ true → Covers pattern path
plain_match-Covers path pattern h = elim (Bool-cases (text_eq path pattern)) [
  | inl e ↦ same ((text_eq_iff path pattern).0 e)
  | inr e ↦ elim (Option-cases (strip_prefix pattern path)) [
    | inl n ↦ absurd (ground (arith, h, e, n))
    | inr (rest, r) ↦
        let slash = (starts_with_iff (codes "/") rest).0 (ground (arith, h, e, r)) in
        inside slash.0 ((strip_prefix_iff pattern path rest).0 r ∙ ap (λ t. pattern ++ t) slash.1)
  ]
]

path_matches-Covers : (path pattern : Text) → path_matches path pattern ≡ true → Covers pattern path
unfolding path_matches
path_matches-Covers path pattern h = elim (Bool-cases (text_eq pattern (codes "*"))) [
  | inl star ↦ everything ((text_eq_iff pattern (codes "*")).0 star)
  | inr star ↦ elim (Option-cases (strip_suffix (codes "/*") pattern)) [
    | inr (d, e) ↦
        let begins = (starts_with_iff d path).0 (ground (arith, h, star, e)) in
        below_star d begins.0 ((strip_suffix_iff (codes "/*") pattern d).0 e) begins.1
    | inl e ↦ elim (Bool-cases (ends_with pattern (codes "/"))) [
      | inl slash ↦
          let begins = (starts_with_iff pattern path).0 (ground (arith, h, star, e, slash)) in
          let (d, p) = (ends_with_iff (codes "/") pattern).0 slash in
          below_slash d begins.0 p begins.1
      | inr slash ↦
          let opened : path_matches path pattern ≡ plain_match path pattern =
            rw (star, e, slash) refl in
          plain_match-Covers path pattern (sym opened ∙ h)
    ]
  ]
]

-- A path that goes on behind a pattern with a final `/*`.
star_suffix :
    (path pattern rest d : Text)
    → path ≡ pattern ++ rest
    → strip_suffix (codes "/*") pattern ≡ some d
    → starts_with d path ≡ true
star_suffix path pattern rest d h e =
    let split = (strip_suffix_iff (codes "/*") pattern d).0 e in
    (starts_with_iff d path).1
      (codes "/*" ++ rest, h ∙ (ap (λ p. p ++ rest) split ∙ append_assoc d (codes "/*") rest))

-- A path that goes on behind a pattern, where the plain tests accept it.
path_matches-behind :
    (path pattern rest : Text)
    → path ≡ pattern ++ rest
    → plain_match path pattern ≡ true
    → path_matches path pattern ≡ true
unfolding path_matches
path_matches-behind path pattern rest h plain = elim (Bool-cases (text_eq pattern (codes "*"))) [
  | inl star ↦ ground (arith, star)
  | inr star ↦ elim (Option-cases (strip_suffix (codes "/*") pattern)) [
    | inr (d, e) ↦ ground (arith, star, e, star_suffix path pattern rest d h e)
    | inl e ↦ elim (Bool-cases (ends_with pattern (codes "/"))) [
      | inl slash ↦ ground (arith, star, e, slash, (starts_with_iff pattern path).1 (rest, h))
      | inr slash ↦ rw (star, e, slash) plain
    ]
  ]
]

-- A path that begins with a pattern which ends in a slash.
path_matches-below_slash :
    (path pattern rest : Text)
    → path ≡ pattern ++ rest
    → ends_with pattern (codes "/") ≡ true
    → path_matches path pattern ≡ true
unfolding path_matches
path_matches-below_slash path pattern rest h slash =
    elim (Bool-cases (text_eq pattern (codes "*"))) [
      | inl star ↦ ground (arith, star)
      | inr star ↦ elim (Option-cases (strip_suffix (codes "/*") pattern)) [
        | inr (d, e) ↦ ground (arith, star, e, star_suffix path pattern rest d h e)
        | inl e ↦ ground (arith, star, e, slash, (starts_with_iff pattern path).1 (rest, h))
      ]
    ]

Covers-path_matches : (path pattern : Text) → Covers pattern path → path_matches path pattern ≡ true
unfolding path_matches
Covers-path_matches path pattern (everything e) =
    ground (arith, (text_eq_iff pattern (codes "*")).1 e)
Covers-path_matches path pattern (below_star d rest e h) =
    elim (Bool-cases (text_eq pattern (codes "*"))) [
      | inl star ↦ ground (arith, star)
      | inr star ↦ ground (
        arith,
        star,
        (strip_suffix_iff (codes "/*") pattern d).1 e,
        (starts_with_iff d path).1 (rest, h),
      )
    ]
Covers-path_matches path pattern (below_slash d rest e h) =
    path_matches-below_slash path pattern rest h ((ends_with_iff (codes "/") pattern).1 (d, e))
Covers-path_matches path pattern (same e) =
    path_matches-behind path pattern [] (e ∙ sym (append-nil pattern))
      (ground (arith, (text_eq_iff path pattern).1 e))
Covers-path_matches path pattern (inside rest e) =
    path_matches-behind path pattern (codes "/" ++ rest) e (
      ground (
        arith,
        (strip_prefix_iff pattern path (codes "/" ++ rest)).1 e,
        (starts_with_iff (codes "/") (codes "/" ++ rest)).1 (rest, refl),
      ))

-- A pattern matches exactly the paths that it covers: all for `*`; those that begin with what stands
-- in front of a final `/*`, with no boundary there, so that `data/*` covers `database`; those that begin
-- with it where it ends in a slash; the pattern itself, and what is below it.
pub path_matches_iff :
    (path pattern : Text) → (path_matches path pattern ≡ true) ↔ Covers pattern path
path_matches_iff path pattern = (path_matches-Covers path pattern, Covers-path_matches path pattern)

-- The calls that change what a plugin may open.
pub data Call : Type 0 where
  register : Text → List PathPermission → Call
  add : Text → PathPermission → Call
  remove : Text → Call

unfoldable pub run : List Call → FilesystemEnforcer → FilesystemEnforcer
unfolding register_permissions add_permission remove_plugin
run [] e = e
run (register id ps ∷ cs) e = run cs (register_permissions id ps e)
run (add id p ∷ cs) e = run cs (add_permission id p e)
run (remove id ∷ cs) e = run cs (remove_plugin id e)

-- The permissions that the calls give to one plugin, which starts with some.
unfoldable pub given : Text → List Call → List PathPermission → List PathPermission
given id [] ps = ps
given id (register j qs ∷ cs) ps = given id cs (if text_eq j id then qs else ps)
given id (add j p ∷ cs) ps = given id cs (if text_eq j id then ps ++ p ∷ [] else ps)
given id (remove j ∷ cs) ps = given id cs (if text_eq j id then [] else ps)

permissions_of-run :
    (id : Text) (cs : List Call) (e : FilesystemEnforcer)
    → permissions_of id (run cs e) ≡ given id cs (permissions_of id e)
unfolding run given
permissions_of-run id [] e = refl
permissions_of-run id (register j qs ∷ cs) e =
    permissions_of-run id cs (register_permissions j qs e)
    ∙ ap (given id cs) (ground (arith, lookup-insert j id qs e.permissions))
permissions_of-run id (add j p ∷ cs) e =
    permissions_of-run id cs (add_permission j p e)
    ∙ ap (given id cs) (
        ground (
          arith,
          text_eq_iff j id,
          lookup-insert j id (permissions_of j e ++ p ∷ []) e.permissions,
        ))
permissions_of-run id (remove j ∷ cs) e =
    permissions_of-run id cs (remove_plugin j e)
    ∙ ap (given id cs) (ground (arith, lookup-remove j id e.permissions))

-- The calls change nothing but the permissions.
run-keeps :
    (cs : List Call) (e : FilesystemEnforcer)
    → run cs e ≡ record e { permissions = (run cs e).permissions }
unfolding run
run-keeps [] e = refl
run-keeps (register j qs ∷ cs) e = run-keeps cs (register_permissions j qs e)
run-keeps (add j p ∷ cs) e = run-keeps cs (add_permission j p e)
run-keeps (remove j ∷ cs) e = run-keeps cs (remove_plugin j e)

is_ok-check_access :
    (id path : Text) (mode : FilesystemAccessMode) (e : FilesystemEnforcer)
    → is_ok (check_access id path mode e) ≡ (
        is_global (resolve_vfs_path path e) mode e
        || any (permits (resolve_vfs_path path e) mode e) (permissions_of id e))
unfolding check_access
is_ok-check_access id path mode e = elim (Option-cases (Dict.lookup id e.permissions)) [
  | inl n ↦ ground (arith, n)
  | inr (ps, s) ↦ ground (arith, s)
]

-- After any calls, access is granted exactly where the path is a global one that is read, or one of the
-- permissions permits it that this plugin had before or got by the calls, since it was last registered
-- or removed: the calls about other plugins play no part.
pub check_access-run :
    (cs : List Call) (id path : Text) (mode : FilesystemAccessMode) (e : FilesystemEnforcer)
    → is_ok (check_access id path mode (run cs e)) ≡ (
        is_global (resolve_vfs_path path e) mode e
        || any (permits (resolve_vfs_path path e) mode e) (given id cs (permissions_of id e)))
unfolding permits resolve_vfs_path
check_access-run cs id path mode e =
    is_ok-check_access id path mode (run cs e)
    ∙ (ap (λ e'. answer e' (permissions_of id (run cs e))) (run-keeps cs e)
        ∙ ap (answer e) (permissions_of-run id cs e))
  where
    answer : FilesystemEnforcer → List PathPermission → Bool
    answer e' ps =
        is_global (resolve_vfs_path path e') mode e'
        || any (permits (resolve_vfs_path path e') mode e') ps
