-- ===== src/Loading/Registered.antt =====
-- What src/plugin_manager/dependency_resolver.rs knows of the plugins that `resolve_plugin_order` registers,
-- and how the loading order shows it.
use skylet.Prelude.{
  ◌≡◌, refl, sym, ap, ◌∙◌, true, ◌||◌, ◌⊎◌, Option, none, some, List, [], ◌∷◌, ◌++◌, map, arith,
  Option-cases, Bool-cases, inl, inr, if◌then◌else◌,
}
use skylet.Prelude.Lists.{All}
use skylet.Prelude.Texts.{Text, text_eq, text_eq_iff, contains}
use skylet.Prelude.Dict
use skylet.Prelude.Dict.{Dict, lookup-insert, lookup-nil}
use skylet.Prelude.Sets.{keys-insert, contains-of_All}
use skylet.Graph.{DependencyEdge}
use skylet.Graph.Building.{has_edge}
use skylet.Graph.Order.{InOrder, targets, contains-targets}
use skylet.Loading.{
  PluginManifest, Manifests, register_plugin, dependencies_or_none, register_all,
  version_or_default, with_abi_versions,
}
use skylet.Loading.Manifests.{IsNamed, names_of, lookup-IsNamed}
use skylet.Loading.Edges.{dependency_name}

-- The ABI version that a plugin was registered with last.
pub last_abi : Text → List (Text × Text) → Option Text
last_abi a [] = none
last_abi a ((name, abi) ∷ plugins) = elim (last_abi a plugins) [
  | some later ↦ some later
  | none ↦ if text_eq name a then some abi else none
]

-- What the resolver knows of a plugin after some registrations, or what it knew before.
register_all-lookup :
    (get_dependencies : Text → Option (List Text)) (plugins : List (Text × Text)) (m : Manifests)
    (a : Text) (p : PluginManifest)
    → Dict.lookup a (register_all get_dependencies plugins m) ≡ some p
    → ((last_abi a plugins ≡ some p.abi_version)
        × (p.dependencies ≡ dependencies_or_none (get_dependencies a)))
      ⊎ ((last_abi a plugins ≡ none) × (Dict.lookup a m ≡ some p))
unfolding register_all register_plugin last_abi
register_all-lookup get_dependencies [] m a p h = inr (refl, h)
register_all-lookup get_dependencies ((name, abi) ∷ ps) m a p h =
    let deps = dependencies_or_none (get_dependencies name) in
    let m' = register_plugin name abi deps none m in
    let laws =
      lookup-insert name a
        (record {
          name = name;
          version = version_or_default none;
          dependencies = deps;
          abi_version = abi;
        })
        m in
    elim (register_all-lookup get_dependencies ps m' a p h) [
      | inl (e, d) ↦ inl (ground (arith, e), d)
      | inr (e, l) ↦ elim (Bool-cases (text_eq name a)) [
        | inl same ↦
            let is_a : name ≡ a = (text_eq_iff name a).0 same in
            inl (
              ground (arith, e, same, l, laws),
              ground
                  (arith, same, l, laws, ap (λ t. dependencies_or_none (get_dependencies t)) is_a),
            )
        | inr other ↦ inr (ground (arith, e, other), ground (arith, l, other, laws))
      ]
    ]

-- The resolver knows exactly the plugins that were registered.
pub register_all-keys :
    (get_dependencies : Text → Option (List Text)) (plugins : List (Text × Text)) (m : Manifests)
    (a : Text)
    → contains a (Dict.keys (register_all get_dependencies plugins m))
      ≡ (contains a (Dict.keys m) || contains a (names_of plugins))
unfolding register_all register_plugin
register_all-keys get_dependencies [] m a = ground arith
register_all-keys get_dependencies ((name, abi) ∷ ps) m a =
    let p : PluginManifest = record {
      name = name;
      version = version_or_default none;
      dependencies = dependencies_or_none (get_dependencies name);
      abi_version = abi;
    } in
    ground (
      arith,
      register_all-keys get_dependencies ps (Dict.insert name p m) a,
      keys-insert a name p m,
    )

-- What a manifest of a registered plugin says.
pub registered_manifest :
    (get_dependencies : Text → Option (List Text)) (plugins : List (Text × Text)) (a : Text)
    (p : PluginManifest)
    → Dict.lookup a (register_all get_dependencies plugins []) ≡ some p
    → (last_abi a plugins ≡ some p.abi_version)
      × (p.dependencies ≡ dependencies_or_none (get_dependencies a))
registered_manifest get_dependencies plugins a p h =
    elim (register_all-lookup get_dependencies plugins [] a p h) [
      | inl known ↦ known
      | inr (e, l) ↦ absurd (ground (arith, l, lookup-nil {V = PluginManifest} a))
    ]

-- The loading order gives each plugin with what its manifest says.
pub with_abi_versions-All :
    (P : Text × Text → Type 0) (m : Manifests) (order : List Text)
    → IsNamed m
    → ((a : Text) (p : PluginManifest) → Dict.lookup a m ≡ some p → P (a, p.abi_version))
    → All P (with_abi_versions m order)
unfolding with_abi_versions
with_abi_versions-All P m [] n h = tt
with_abi_versions-All P m (a ∷ order) n h = elim (Option-cases (Dict.lookup a m)) [
  | inl e ↦ rw (e, with_abi_versions) (with_abi_versions-All P m order n h)
  | inr (p, e) ↦
      rw (e, with_abi_versions)
        (rw (sym (lookup-IsNamed a p m n e)) at (h a p e), with_abi_versions-All P m order n h)
]

-- Each plugin of an order stands behind all plugins that its dependency strings name.
pub DependenciesFirst : (Text → Option (List Text)) → List Text → List Text → Type 0
DependenciesFirst get_dependencies seen [] = Unit
DependenciesFirst get_dependencies seen (a ∷ order) =
    All (λ d. contains (dependency_name d) seen ≡ true) (dependencies_or_none (get_dependencies a))
    × DependenciesFirst get_dependencies (seen ++ a ∷ []) order

All-of_map :
    (P : Text → Type 0) (f : Text → Text) (ds : List Text)
    → ((b : Text) → contains b (map f ds) ≡ true → P b)
    → All (λ d. P (f d)) ds
All-of_map P f [] h = tt
All-of_map P f (d ∷ ds) h = (
  h (f d) (ground (arith, text_eq_iff (f d) (f d))),
  All-of_map P f ds (λ b i. h b (ground (arith, i))),
)

pub InOrder-DependenciesFirst :
    (get_dependencies : Text → Option (List Text)) (es : List DependencyEdge)
    (seen order : List Text)
    → All
        (λ a.
          (b : Text)
          → contains b (map dependency_name (dependencies_or_none (get_dependencies a))) ≡ true
          → has_edge a b es ≡ true)
        order
    → InOrder es seen order
    → DependenciesFirst get_dependencies seen order
unfolding DependenciesFirst
InOrder-DependenciesFirst get_dependencies es seen [] h o = tt
InOrder-DependenciesFirst get_dependencies es seen (a ∷ order) h o = (
  All-of_map (λ b. contains b seen ≡ true) dependency_name
      (dependencies_or_none (get_dependencies a))
      (λ b i.
        contains-of_All (λ t. contains t seen ≡ true) (targets a es) b o.1
          (contains-targets a b es ∙ h.0 b i)),
  InOrder-DependenciesFirst get_dependencies es (seen ++ a ∷ []) order h.1 o.2,
)
