-- ===== src/Loading/Manifests.antt =====
-- The graph that src/plugin_manager/dependency_resolver.rs builds of the registered manifests.
use skylet.Prelude.{
  ◌≡◌, refl, true, ◌||◌, Option, some, List, [], ◌∷◌, arith, Bool-cases, Option-cases, inl, inr,
  Result, ok, err,
}
use mathlib.Core.Path.{subst}
use skylet.Prelude.Lists.{All}
use skylet.Prelude.Texts.{Text, text_eq, text_eq_iff, contains}
use skylet.Prelude.Dict
use skylet.Prelude.Dict.{Dict, lookup-insert}
use skylet.Prelude.Sets.{keys_iff, keys-insert}
use skylet.Graph.{PluginNode, DependencyGraph, new_graph, build, add_plugin}
use skylet.Graph.Building.{
  IsWellFormed, add_plugin-IsWellFormed, build-IsWellFormed, nodes-add_plugin,
}
use skylet.Loading.{
  PluginManifest, Manifests, LoadError, register_plugin, build_plugin_node, add_manifests,
  with_abi_versions, register_all,
}

-- Each manifest is stored under its own name.
abbrev pub IsNamed : Manifests → Type 0
IsNamed [] = Unit
IsNamed ((name, p) ∷ m) = (p.name ≡ name) × IsNamed m

pub lookup-IsNamed :
    (a : Text) (p : PluginManifest) (m : Manifests)
    → IsNamed m
    → Dict.lookup a m ≡ some p
    → p.name ≡ a
unfolding Dict.lookup
lookup-IsNamed a p [] n h = ground arith
lookup-IsNamed a p ((name, q) ∷ m) n h =
    ground (arith, h, n.0, lookup-IsNamed a p m n.1, text_eq_iff name a)

insert-IsNamed : (p : PluginManifest) (m : Manifests) → IsNamed m → IsNamed (Dict.insert p.name p m)
unfolding Dict.insert
insert-IsNamed p [] n = (refl, tt)
insert-IsNamed p ((name, q) ∷ m) n = elim (Bool-cases (text_eq name p.name)) [
  | inl e ↦ rw (e, Dict.insert) (refl, n.1)
  | inr e ↦ rw (e, Dict.insert) (n.0, insert-IsNamed p m n.1)
]

pub register_all-IsNamed :
    (get_dependencies : Text → Option (List Text)) (plugins : List (Text × Text)) (m : Manifests)
    → IsNamed m
    → IsNamed (register_all get_dependencies plugins m)
unfolding register_all register_plugin
register_all-IsNamed get_dependencies [] m n = n
register_all-IsNamed get_dependencies ((name, abi) ∷ ps) m n =
    register_all-IsNamed get_dependencies ps _ (insert-IsNamed _ m n)

build_plugin_node-id :
    (p : PluginManifest) (node : PluginNode) → build_plugin_node p ≡ ok node → node.id ≡ p.name
unfolding build_plugin_node
build_plugin_node-id p node h = ground arith

-- The graph of some manifests: it is well-formed and has their names for plugins.
pub record IsGraphOf (m : Manifests) (g g' : DependencyGraph) : Type 0 where
  pub well_formed : IsWellFormed g'
  pub names :
      (a : Text)
      → contains a (Dict.keys g'.nodes)
        ≡ (contains a (Dict.keys g.nodes) || contains a (Dict.keys m))

pub add_manifests-IsGraphOf :
    (m : Manifests) (g g' : DependencyGraph)
    → IsNamed m
    → IsWellFormed g
    → add_manifests m g ≡ ok g'
    → IsGraphOf m g g'
unfolding add_manifests
add_manifests-IsGraphOf [] g g' n wf h =
    let same : g ≡ g' = ground (arith, h) in
    subst (IsGraphOf [] g) same (record { well_formed = wf; names = λ a. ground arith })
add_manifests-IsGraphOf ((name, p) ∷ m) g g' n wf h = go (build_plugin_node p) refl (λ node.
    add_manifests-IsGraphOf m (add_plugin node g) g' n.1 (add_plugin-IsWellFormed node g wf))
  where
    go :
        (r : Result PluginNode LoadError)
        → build_plugin_node p ≡ r
        → ((node : PluginNode)
            → add_manifests m (add_plugin node g) ≡ ok g'
            → IsGraphOf m (add_plugin node g) g')
        → IsGraphOf ((name, p) ∷ m) g g'
    go (err e) k rec = ground (arith, h, k)
    go (ok node) k rec =
        let r = rec node (ground (arith, h, k)) in
        record {
          well_formed = r.well_formed;
          names = λ a. ground (
            arith,
            r.names a,
            nodes-add_plugin node g,
            keys-insert a node.id node g.nodes,
            build_plugin_node-id p node k,
            n.0,
          );
        }

abbrev pub names_of : List (Text × Text) → List Text
names_of [] = []
names_of ((name, abi) ∷ l) = name ∷ names_of l

pub names_of-with_abi_versions :
    (m : Manifests) (order : List Text)
    → IsNamed m
    → All (λ a. contains a (Dict.keys m) ≡ true) order
    → names_of (with_abi_versions m order) ≡ order
unfolding with_abi_versions
names_of-with_abi_versions m [] n h = refl
names_of-with_abi_versions m (a ∷ order) n h = elim (Option-cases (Dict.lookup a m)) [
  | inl absent ↦ ground (arith, h.0, keys_iff a m, absent)
  | inr (p, found) ↦
      ground (arith, found, lookup-IsNamed a p m n found, names_of-with_abi_versions m order n h.1)
]

pub new_graph-IsWellFormed : IsWellFormed new_graph
new_graph-IsWellFormed = unfold build in build-IsWellFormed []
