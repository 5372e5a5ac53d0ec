-- ===== src/Audit/Registry.antt =====
-- `DefaultAuditRegistry` of abi/src/audit.rs: audit backends by name. A backend is a value of any
-- type.
use skylet.Prelude.{
  ℕ, ◌≡◌, refl, ◌∙◌, Bool, Option, none, some, List, ◌++◌, arith, if◌then◌else◌, Result, ok, err,
}
use skylet.Prelude.Lists.{length}
use skylet.Prelude.Texts.{Text, text_eq, codes, contains}
use skylet.Prelude.Dict
use skylet.Prelude.Dict.{Dict, lookup-insert, lookup-remove}
use skylet.Prelude.Sets.{is_some, keys_iff}
use skylet.Prelude.Sorting.{sort, IsSorted, sort-IsSorted, contains-sort}
use skylet.Audit.Signing.{AuditLogError, registry_error}

module _ {B : Type 0} where
  unfoldable pub get : Text → Dict B → Option B
  get name backends = Dict.lookup name backends

  unfoldable pub has : Text → Dict B → Bool
  has name backends = is_some (Dict.lookup name backends)

  -- The registry is as before where the name is taken.
  unfoldable pub register : Text → B → Dict B → Dict B × Result (Unit {0}) AuditLogError
  register name backend backends =
      if is_some (Dict.lookup name backends)
      then (
        backends,
        err (registry_error (codes "Backend '" ++ (name ++ codes "' is already registered"))),
      )
      else (Dict.insert name backend backends, ok tt)

  unfoldable pub unregister : Text → Dict B → Dict B × Bool
  unregister name backends = (Dict.remove name backends, is_some (Dict.lookup name backends))

  unfoldable pub list_backends : Dict B → List Text
  unfolding sort
  list_backends backends = sort (Dict.keys backends)

  unfoldable pub backend_count : Dict B → ℕ
  backend_count backends = length backends

  -- After a registration a free name has the new backend, a taken one keeps its own, and the other names
  -- are not touched.
  pub get-register :
      (name other : Text) (b : B) (backends : Dict B)
      → get other (register name b backends).0 ≡ (
          if text_eq name other
          then (if has name backends then get other backends else some b)
          else get other backends)
  unfolding get has register
  get-register name other b backends = ground (arith, lookup-insert name other b backends)

  -- After a name is taken back it has no backend, the other names keep theirs, and the answer is whether
  -- the name had one.
  pub get-unregister :
      (name other : Text) (backends : Dict B)
      → (get other (unregister name backends).0
          ≡ (if text_eq name other then none else get other backends))
        × ((unregister name backends).1 ≡ has name backends)
  unfolding get has unregister
  get-unregister name other backends = (lookup-remove name other backends, refl)

  -- The list of the backends is sorted, and names exactly the registered ones.
  pub list_backends-IsSorted :
      (backends : Dict B)
      → IsSorted (list_backends backends)
        × ((name : Text) → contains name (list_backends backends) ≡ has name backends)
  unfolding list_backends has
  list_backends-IsSorted backends = (
    sort-IsSorted (Dict.keys backends),
    λ name. contains-sort name (Dict.keys backends) ∙ keys_iff name backends,
  )
