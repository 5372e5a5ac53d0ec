-- ===== src/Security/Confinement.antt =====
-- What the sandbox of abi/src/security.rs lets a plugin do.
use skylet.Prelude.{
  ◌≡◌, ◌↔◌, refl, sym, ◌∙◌, Bool, true, false, not, ◌&&◌, ◌||◌, some, List, [], ◌∷◌, ◌++◌, arith,
  is_ok, err, if◌then◌else◌, Option-cases, inl, inr, &&-eq-true,
}
use skylet.Prelude.Lists.{any, any_iff, In}
use skylet.Prelude.Texts.{Text, text_eq_refl, codes, starts_with, has_text}
use skylet.Prelude.Texts.Search.{starts_with_iff, has_text_iff, Within}
use skylet.Prelude.Dict
use skylet.Prelude.Dict.{lookup-insert}
use skylet.Security.{pointer_validation_failed}
use skylet.Security.Sandbox.{
  PluginSandboxPolicy, Policies, permissive, has_capability, can_access_path, file_check,
  check_file_access, with_policy_of, is_nil, register_policy, file_write, file_read,
}

-- A path that a policy lets through: it begins with one of the allowed texts, has no `..`, and no `./`.
pub record IsAllowed (p : PluginSandboxPolicy) (path : Text) : Type 0 where
  pub allowed : Text
  pub listed : In allowed p.allowed_paths
  pub rest : Text
  pub begins : path ≡ allowed ++ rest
  pub no_parent : ¬ Within (codes "..") path
  pub no_current : ¬ Within (codes "./") path

guarded :
    (l : List Text) (b : Bool) (test : Text → Bool)
    → (if is_nil l then false else if b then false else any test l) ≡ (not b && any test l)
guarded [] true test = refl
guarded [] false test = refl
guarded (x ∷ l) true test = refl
guarded (x ∷ l) false test = refl

can_access_path_lem :
    (p : PluginSandboxPolicy) (path : Text)
    → can_access_path p path ≡ (
        not (has_text (codes "..") path || has_text (codes "./") path)
        && any (λ allowed. starts_with allowed path) p.allowed_paths)
unfolding can_access_path
can_access_path_lem p path = guarded p.allowed_paths _ _

-- Exactly the paths are accessible that begin with the text of an allowed path and have neither `..`
-- nor `./` in them. Where the allowed path ends is not looked at: with `/tmp` goes `/tmpfile`.
pub can_access_path_iff :
    (p : PluginSandboxPolicy) (path : Text) → (can_access_path p path ≡ true) ↔ IsAllowed p path
can_access_path_iff p path =
    let parent = has_text_iff (codes "..") path in
    let current = has_text_iff (codes "./") path in
    let listed = any_iff (λ allowed. starts_with allowed path) p.allowed_paths in
    (
      λ h.
          let (allowed, i, starts) = listed.0 (ground (arith, h, can_access_path_lem p path)) in
          let (rest, e) = (starts_with_iff allowed path).0 starts in
          record {
            allowed = allowed;
            listed = i;
            rest = rest;
            begins = e;
            no_parent = λ w. ground (arith, h, can_access_path_lem p path, parent.1 w);
            no_current = λ w. ground (arith, h, can_access_path_lem p path, current.1 w);
          },
      λ a. ground (
        arith,
        can_access_path_lem p path,
        absent _ (λ e. a.no_parent (parent.0 e)),
        absent _ (λ e. a.no_current (current.0 e)),
        listed.1 (a.allowed, a.listed, (starts_with_iff a.allowed path).1 (a.rest, a.begins)),
      ),
    )
  where
    absent : (b : Bool) → ¬ (b ≡ true) → b ≡ false
    absent true h = absurd (h refl)
    absent false h = refl

file_check_lem :
    (path : Text) (write : Bool) (p : PluginSandboxPolicy)
    → is_ok (file_check path write p)
      ≡ (has_capability p (if write then file_write else file_read) && can_access_path p path)
unfolding file_check
file_check_lem path write p = ground arith

check_file_access_lem :
    (id path : Text) (write : Bool) (policies : Policies)
    → check_file_access id path write policies
      ≡ with_policy_of (Dict.lookup id policies) (file_check path write)
unfolding check_file_access
check_file_access_lem id path write policies = refl

-- A registered plugin may open a file exactly when its policy has the capability for reading or for
-- writing, as it asks, and allows the path; a plugin that is not registered may not.
pub check_file_access_iff :
    (id path : Text) (write : Bool) (policies : Policies)
    → (is_ok (check_file_access id path write policies) ≡ true) ↔ (
        (p : PluginSandboxPolicy) × (Dict.lookup id policies ≡ some p)
        × (has_capability p (if write then file_write else file_read) ≡ true)
        × IsAllowed p path)
check_file_access_iff id path write policies =
    let whole = check_file_access_lem id path write policies in
    (
      λ h. elim (Option-cases (Dict.lookup id policies)) [
        | inl unknown ↦ ground (arith, h, whole, unknown)
        | inr (p, found) ↦
            let both : (has_capability p (if write then file_write else file_read)
                  && can_access_path p path)
                ≡ true =
              sym (file_check_lem path write p) ∙ ground (arith, h, whole, found) in
            let (capable, open_) = &&-eq-true _ _ both in
            (p, found, capable, (can_access_path_iff p path).0 open_)
      ],
      λ a.
          let (p, found, capable, allowed) = a in
          let open_ = (can_access_path_iff p path).1 allowed in
          let passes : is_ok (file_check path write p) ≡ true =
            file_check_lem path write p ∙ rw (capable, open_) refl in
          ground (arith, whole, found, passes),
    )

-- Under the permissive policy, which lists no paths, no file can be opened.
pub permissive-denies :
    (id path : Text) (write : Bool) (policies : Policies)
    → check_file_access id path write (register_policy (permissive id) policies)
      ≡ err pointer_validation_failed
unfolding register_policy
permissive-denies id path write policies =
    let found : Dict.lookup id (Dict.insert id (permissive id) policies) ≡ some (permissive id) =
      ground (arith, lookup-insert id id (permissive id) policies, text_eq_refl id) in
    check_file_access_lem id path write (register_policy (permissive id) policies)
    ∙ rw found (denied _)
  where
    denied : (write : Bool) → file_check path write (permissive id) ≡ err pointer_validation_failed
    denied w = unfold file_check in ground arith
