-- ===== src/Resolver/Conflicts.antt =====
-- The conflicts that `detect_conflicts` of abi/src/dependencies/resolver.rs reports.
use skylet.Prelude.{
  ◌≡◌, ◌≢◌, ◌↔◌, refl, true, false, some, List, [], ◌∷◌, ◌++◌, arith, Bool-cases, Option-cases, inl,
  inr,
}
use skylet.Prelude.Lists.{any}
use skylet.Prelude.Texts.{Text, text_eq_iff, text_eq_refl}
use skylet.Prelude.Dict
use skylet.Prelude.Dict.{Dict, lookup-cons}
use skylet.Version.{Version}
use skylet.Graph.{DependencyGraph, DependencyEdge, detect_cycles}
use skylet.Resolver.{
  ConflictRequirement, DependencyResolver, meets, is_conflict, conflicts_in, collect_requirements,
  detect_conflicts, can_resolve, collect_from, requirement, versions_or, or_no_reqs,
}
use skylet.Prelude.Sets.{Nodup, keys_iff, Nodup-keys-insert}
use skylet.Resolver.Resolution.{requirements_on, collect_requirements-lookup}

-- The registered versions of a plugin.
abbrev pub registered : DependencyResolver → Text → List Version
registered r plugin = versions_or [] (Dict.lookup plugin r.available)

-- Some registered version of a plugin meets all requirements on it, if there are any.
abbrev pub IsMet : DependencyResolver → Text → List ConflictRequirement → Type 0
IsMet r a reqs = reqs ≢ [] → any (meets reqs) (registered r a) ≡ true

is_conflict_iff :
    (r : DependencyResolver) (a : Text) (reqs : List ConflictRequirement)
    → (is_conflict r a reqs ≡ false) ↔ IsMet r a reqs
unfolding is_conflict
is_conflict_iff r a [] = ground arith
is_conflict_iff r a (q ∷ reqs) = ground arith

no_requirement : (r : DependencyResolver) (a : Text) → is_conflict r a [] ≡ false
unfolding is_conflict
no_requirement r a = ground arith

no_conflict-lookup :
    (r : DependencyResolver) (m : Dict (List ConflictRequirement)) (a : Text)
    → conflicts_in r m ≡ []
    → is_conflict r a (or_no_reqs (Dict.lookup a m)) ≡ false
unfolding conflicts_in
no_conflict-lookup r [] a h = unfold Dict.lookup is_conflict in ground arith
no_conflict-lookup r ((k, reqs) ∷ m) a h = elim (Bool-cases (is_conflict r k reqs)) [
  | inl e ↦ ground (arith, h, e)
  | inr e ↦ ground (arith, h, e, lookup-cons a k reqs m, text_eq_iff k a, no_conflict-lookup r m a)
]

no_conflict-of_lookup :
    (r : DependencyResolver) (m : Dict (List ConflictRequirement))
    → Nodup (Dict.keys m)
    → ((a : Text) → is_conflict r a (or_no_reqs (Dict.lookup a m)) ≡ false)
    → conflicts_in r m ≡ []
unfolding conflicts_in
no_conflict-of_lookup r [] n h = refl
no_conflict-of_lookup r ((k, reqs) ∷ m) n h =
    let here : is_conflict r k reqs ≡ false =
      ground (arith, h k, lookup-cons k k reqs m, text_eq_refl k) in
    rw here (
      no_conflict-of_lookup r m n.1 (λ a. ground (
        arith,
        h a,
        n.0,
        lookup-cons a k reqs m,
        text_eq_iff k a,
        keys_iff a m,
        no_requirement r a,
        Option-cases (Dict.lookup a m),
      )))

Nodup-collect_from :
    (es : List DependencyEdge) (m : Dict (List ConflictRequirement))
    → Nodup (Dict.keys m)
    → Nodup (Dict.keys (collect_from es m))
unfolding collect_from
Nodup-collect_from [] m n = n
Nodup-collect_from (e ∷ es) m n =
    let reqs = or_no_reqs (Dict.lookup e.to m) ++ requirement e ∷ [] in
    Nodup-collect_from es (Dict.insert e.to reqs m) (Nodup-keys-insert e.to reqs m n)

can_resolve-eq :
    (r : DependencyResolver) (g : DependencyGraph)
    → (can_resolve r g ≡ some true)
      ↔ ((detect_cycles g ≡ some []) × (conflicts_in r (collect_requirements g) ≡ []))
unfolding can_resolve detect_conflicts
can_resolve-eq r g = ground arith

-- `can_resolve` holds exactly when `detect_cycles` finds no cycle and each plugin that some edge leads to
-- has a registered version that meets the requirements of all edges to it.
pub can_resolve_iff :
    (r : DependencyResolver) (g : DependencyGraph)
    → (can_resolve r g ≡ some true)
      ↔ ((detect_cycles g ≡ some []) × ((a : Text) → IsMet r a (requirements_on a g.edges)))
can_resolve_iff r g =
    let e = can_resolve-eq r g in
    let reqs = collect_requirements g in
    (
      (λ h.
          let (acyclic, none_left) = e.0 h in
          (
            acyclic,
            (λ a. rw (collect_requirements-lookup a g) at (
                (is_conflict_iff r a (or_no_reqs (Dict.lookup a reqs))).0
                  (no_conflict-lookup r reqs a none_left))),
          )),
      (λ h. e.1 (
        h.0,
        no_conflict-of_lookup r reqs
            (unfold collect_requirements in Nodup-collect_from g.edges [] tt)
            (λ a.
              (is_conflict_iff r a (or_no_reqs (Dict.lookup a reqs))).1
                (rw (collect_requirements-lookup a g) (h.1 a))),
      )),
    )
