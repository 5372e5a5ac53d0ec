-- ===== src/Loading/Edges.antt =====
-- The edges of the graph that src/plugin_manager/dependency_resolver.rs builds of the manifests.
use skylet.Prelude.{
  ◌≡◌, refl, sym, true, ◌||◌, ◌&&◌, Bool-cases, none, some, List, [], ◌∷◌, map, arith, inl, inr,
  Result, ok, err,
}
use skylet.Prelude.Texts.{Text, text_eq, text_eq_iff, split_once, trim, contains}
use skylet.Prelude.Dict
use skylet.Prelude.Dict.{Dict, lookup-insert, lookup-nil}
use skylet.Graph.{Dependency, PluginNode, DependencyGraph, dep_names, add_plugin}
use skylet.Graph.Building.{has_edge, has_edge-add_edges}
use skylet.Loading.{
  PluginManifest, Manifests, LoadError, parse_dependency, parse_dependencies, build_plugin_node,
  add_manifests,
}
use skylet.Loading.Manifests.{IsNamed}

-- The plugin that a dependency string names: what stands before its first `@`, without white space around
-- it.
pub dependency_name : Text → Text
dependency_name d = elim (split_once 64 d) [ none ↦ trim d | some (name, req) ↦ trim name ]

parse_dependency-name :
    (d : Text) (dep : Dependency) → parse_dependency d ≡ ok dep → dep.name ≡ dependency_name d
unfolding parse_dependency dependency_name
parse_dependency-name d dep h = ground (arith, h)

parse_dependencies-names :
    (ds : List Text) (deps : List Dependency)
    → parse_dependencies ds ≡ ok deps
    → dep_names deps ≡ map dependency_name ds
unfolding parse_dependencies
parse_dependencies-names [] deps h = ground (arith, h)
parse_dependencies-names (d ∷ ds) deps h =
    go (parse_dependencies-names ds) (parse_dependency d) refl (parse_dependencies ds) refl
  where
    go :
        ((deps : List Dependency)
          → parse_dependencies ds ≡ ok deps
          → dep_names deps ≡ map dependency_name ds)
        → (x : Result Dependency LoadError) → parse_dependency d ≡ x
        → (y : Result (List Dependency) LoadError) → parse_dependencies ds ≡ y
        → dep_names deps ≡ map dependency_name (d ∷ ds)
    go rec (err e) k y l = ground (arith, h, k)
    go rec (ok dep) k (err e) l = ground (arith, h, k, l)
    go rec (ok dep) k (ok rest) l =
        ground (arith, h, k, l, parse_dependency-name d dep k, rec rest l)

-- What the registered node of a manifest depends on.
build_plugin_node-names :
    (p : PluginManifest) (node : PluginNode)
    → build_plugin_node p ≡ ok node
    → (node.id ≡ p.name) × (dep_names node.dependencies ≡ map dependency_name p.dependencies)
unfolding build_plugin_node
build_plugin_node-names p node h = go (parse_dependencies p.dependencies) refl
  where
    go :
        (x : Result (List Dependency) LoadError)
        → parse_dependencies p.dependencies ≡ x
        → (node.id ≡ p.name) × (dep_names node.dependencies ≡ map dependency_name p.dependencies)
    go (err e) k = ground (arith, h, k)
    go (ok deps) k =
        let names = parse_dependencies-names p.dependencies deps k in
        (ground (arith, h, k), ground (arith, h, k, names))

add_plugin-edge :
    (a b : Text) (node : PluginNode) (g : DependencyGraph)
    → has_edge a b (add_plugin node g).edges
      ≡ (has_edge a b g.edges || (text_eq a node.id && contains b (dep_names node.dependencies)))
unfolding add_plugin
add_plugin-edge a b node g = has_edge-add_edges node.id a b node.dependencies g

-- The edges of a graph are kept when manifests are added, and each dependency of a manifest becomes one.
pub record HasEdges (m : Manifests) (g g' : DependencyGraph) : Type 0 where
  pub kept : (a b : Text) → has_edge a b g.edges ≡ true → has_edge a b g'.edges ≡ true
  pub added :
      (a b : Text) (p : PluginManifest)
      → Dict.lookup a m ≡ some p
      → contains b (map dependency_name p.dependencies) ≡ true
      → has_edge a b g'.edges ≡ true

pub add_manifests-HasEdges :
    (m : Manifests) (g g' : DependencyGraph)
    → IsNamed m
    → add_manifests m g ≡ ok g'
    → HasEdges m g g'
unfolding add_manifests Dict.lookup
add_manifests-HasEdges [] g g' n h =
    let same : g ≡ g' = ground (arith, h) in
    record { kept = λ a b e. rw same at e; added = λ a b p e i. ground (arith, e) }
add_manifests-HasEdges ((name, p) ∷ m) g g' n h =
    go (build_plugin_node p) refl (λ node. add_manifests-HasEdges m (add_plugin node g) g' n.1)
  where
    go :
        (r : Result PluginNode LoadError)
        → build_plugin_node p ≡ r
        → ((node : PluginNode)
            → add_manifests m (add_plugin node g) ≡ ok g'
            → HasEdges m (add_plugin node g) g')
        → HasEdges ((name, p) ∷ m) g g'
    go (err e) k rec = ground (arith, h, k)
    go (ok node) k rec =
        let r = rec node (ground (arith, h, k)) in
        let names = build_plugin_node-names p node k in
        record {
          kept = λ a b e. r.kept a b (ground (arith, e, add_plugin-edge a b node g));
          added = λ a b q e i. elim (Bool-cases (text_eq name a)) [
            | inr other ↦ r.added a b q (ground (arith, e, other)) i
            | inl same ↦
                let is_p : p ≡ q = ground (arith, e, same) in
                let i' = rw (sym is_p) at i in
                let fits : text_eq a node.id ≡ true =
                  ground (arith, same, n.0, names.0, text_eq_iff name a, text_eq_iff a node.id) in
                r.kept a b (ground (arith, add_plugin-edge a b node g, fits, names.1, i'))
          ];
        }
