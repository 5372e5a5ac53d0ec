-- ===== src/Graph/Building.antt =====
-- What holds of the indices of a dependency graph (abi/src/dependencies/graph.rs) that `add_plugin`
-- has built.
use skylet.Prelude.{
  ◌≡◌, refl, ◌∙◌, Bool, true, ◌&&◌, ◌||◌, List, [], ◌∷◌, ◌++◌, arith, Bool-cases, inl, inr,
  if◌then◌else◌,
}
use mathlib.Core.List.{foldl}
use skylet.Prelude.Lists.{any}
use skylet.Prelude.Texts.{Text, text_eq, text_eq_iff, contains}
use skylet.Prelude.Dict
use skylet.Prelude.Dict.{Dict, lookup-nil, lookup-insert}
use skylet.Prelude.Sets.{
  set_insert, Nodup, contains-set_insert, Nodup-set_insert, keys-insert, Nodup-keys-insert,
}
use skylet.Graph.{
  Dependency, PluginNode, DependencyEdge, DependencyGraph, new_graph, or_empty, dependents_of,
  dependencies_of, dep_names, add_edge, add_edges, add_plugin, build,
}

-- There is an edge from `a` to `b`.
abbrev pub has_edge : Text → Text → List DependencyEdge → Bool
has_edge a b = any (λ e. text_eq e.from a && text_eq e.to b)

pub record IsIndexed (g : DependencyGraph) : Type 0 where
  -- the reverse index holds exactly the edges
  pub index : (a b : Text) → contains a (dependents_of b g) ≡ has_edge a b g.edges
  pub distinct : (b : Text) → Nodup (dependents_of b g)

has_edge-append :
    (a b : Text) (es fs : List DependencyEdge)
    → has_edge a b (es ++ fs) ≡ (has_edge a b es || has_edge a b fs)
has_edge-append a b [] fs = refl
has_edge-append a b (e ∷ es) fs = ground (arith, has_edge-append a b es fs)

dependents_of-add_edge :
    (id b : Text) (dep : Dependency) (g : DependencyGraph)
    → dependents_of b (add_edge id dep g)
      ≡ (if text_eq dep.name b then set_insert id (dependents_of b g) else dependents_of b g)
unfolding dependents_of add_edge
dependents_of-add_edge id b dep g = ground (
  arith,
  lookup-insert dep.name b (set_insert id (or_empty (Dict.lookup dep.name g.dependents)))
      g.dependents,
  text_eq_iff dep.name b,
)

add_edge-IsIndexed :
    (id : Text) (dep : Dependency) (g : DependencyGraph)
    → IsIndexed g
    → IsIndexed (add_edge id dep g)
add_edge-IsIndexed id dep g h = record {
  index = λ a b. rw dependents_of-add_edge (
      unfold add_edge in
      ground (
        arith,
        has_edge-append a b g.edges (record { from = id; to = dep.name; dependency = dep } ∷ []),
        contains-set_insert a id (dependents_of b g),
        h.index a b,
        text_eq_iff a id,
        text_eq_iff id a,
      ));
  distinct = λ b. rw dependents_of-add_edge (elim (Bool-cases (text_eq dep.name b)) [
    | inl e ↦ rw e (Nodup-set_insert (dependents_of b g) id (h.distinct b))
    | inr e ↦ rw e (h.distinct b)
  ]);
}

add_edges-IsIndexed :
    (id : Text) (deps : List Dependency) (g : DependencyGraph)
    → IsIndexed g
    → IsIndexed (add_edges id deps g)
unfolding add_edges
add_edges-IsIndexed id [] g h = h
add_edges-IsIndexed id (dep ∷ deps) g h =
    add_edges-IsIndexed id deps (add_edge id dep g) (add_edge-IsIndexed id dep g h)

pub has_edge-add_edges :
    (id a b : Text) (deps : List Dependency) (g : DependencyGraph)
    → has_edge a b (add_edges id deps g).edges
      ≡ (has_edge a b g.edges || (text_eq a id && contains b (dep_names deps)))
unfolding add_edges add_edge
has_edge-add_edges id a b [] g = ground arith
has_edge-add_edges id a b (dep ∷ deps) g = ground (
  arith,
  has_edge-add_edges id a b deps (add_edge id dep g),
  has_edge-append a b g.edges (record { from = id; to = dep.name; dependency = dep } ∷ []),
  text_eq_iff a id,
  text_eq_iff id a,
  text_eq_iff b dep.name,
  text_eq_iff dep.name b,
)

nodes-add_edges :
    (id : Text) (deps : List Dependency) (g : DependencyGraph)
    → (add_edges id deps g).nodes ≡ g.nodes
unfolding add_edges
nodes-add_edges id [] g = refl
nodes-add_edges id (dep ∷ deps) g =
    nodes-add_edges id deps (add_edge id dep g) ∙ (unfold add_edge in refl)

-- What `add_plugin` keeps up: the reverse index, that edges start at plugins of the graph, that each
-- dependency of a plugin is an edge, and that a plugin is there once.
pub record IsWellFormed (g : DependencyGraph) : Type 0 where
  pub indexed : IsIndexed g
  pub sources : (a b : Text) → has_edge a b g.edges ≡ true → contains a (Dict.keys g.nodes) ≡ true
  pub targets :
      (a b : Text)
      → contains b (dep_names (dependencies_of a g)) ≡ true
      → has_edge a b g.edges ≡ true
  pub once : Nodup (Dict.keys g.nodes)

add_plugin-IsIndexed :
    (n : PluginNode) (g : DependencyGraph) → IsIndexed g → IsIndexed (add_plugin n g)
unfolding add_plugin dependents_of
add_plugin-IsIndexed n g h =
    let k = add_edges-IsIndexed n.id n.dependencies g h in
    record { index = k.index; distinct = k.distinct }

pub nodes-add_plugin :
    (n : PluginNode) (g : DependencyGraph) → (add_plugin n g).nodes ≡ Dict.insert n.id n g.nodes
unfolding add_plugin
nodes-add_plugin n g = rw (nodes-add_edges n.id n.dependencies g) refl

-- Adding a plugin keeps a graph well-formed.
pub add_plugin-IsWellFormed :
    (n : PluginNode) (g : DependencyGraph) → IsWellFormed g → IsWellFormed (add_plugin n g)
unfolding add_plugin dependencies_of
add_plugin-IsWellFormed n g h =
    let same = nodes-add_edges n.id n.dependencies g in
    record {
      indexed = add_plugin-IsIndexed n g h.indexed;
      sources = λ a b e. rw same (
          ground (
            arith,
            keys-insert a n.id n g.nodes,
            has_edge-add_edges n.id a b n.dependencies g,
            h.sources a b,
          ));
      targets = λ a b e. ground (
        arith,
        same,
        lookup-insert n.id a n g.nodes,
        has_edge-add_edges n.id a b n.dependencies g,
        h.targets a b,
        text_eq_iff n.id a,
        text_eq_iff a n.id,
      );
      once = rw same (Nodup-keys-insert n.id n g.nodes h.once);
    }

build_from-IsWellFormed :
    (ns : List PluginNode) (g : DependencyGraph)
    → IsWellFormed g
    → IsWellFormed (foldl (λ g n. add_plugin n g) g ns)
build_from-IsWellFormed [] g h = h
build_from-IsWellFormed (n ∷ ns) g h =
    build_from-IsWellFormed ns (add_plugin n g) (add_plugin-IsWellFormed n g h)

-- A graph that is built by `add_plugin` alone is well-formed.
pub build-IsWellFormed : (ns : List PluginNode) → IsWellFormed (build ns)
unfolding build
build-IsWellFormed ns = build_from-IsWellFormed ns new_graph (record {
  indexed = record {
    index = λ a b. unfold dependents_of Dict.lookup in refl;
    distinct = λ b. unfold dependents_of Dict.lookup in tt;
  };
  sources = λ a b e. ground arith;
  targets = λ a b e. unfold dependencies_of Dict.lookup in ground arith;
  once = tt;
})
