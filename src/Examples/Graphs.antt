-- ===== src/Examples/Graphs.antt =====
-- Dependency graphs (abi/src/dependencies/graph.rs) at sample values.
use skylet.Prelude.{◌≡◌, refl, true, false, some, List, [], ◌∷◌, ok, Result}
use skylet.Prelude.Texts.{Text, codes, contains, text_eq, text_eq_iff, text_eq_comm}
use skylet.Prelude.Dict
use skylet.Version.{new_version}
use skylet.Constraint.{any_req}
use skylet.Graph.{
  Dependency, PluginNode, GraphError, build, add_plugin, add_edges, add_edge, dependents_of,
  dependencies_of, dep_names, detect_cycles, topological_sort,
}
use skylet.Prelude.Sets.{Nodup}
use skylet.Prelude.{ℕ, ◌<◌, arith, if◌then◌else◌, Bool-cases, inl, inr}
use skylet.Graph.{DependencyEdge}
use skylet.Graph.Order.{targets}
use skylet.Graph.Acyclic.{detect_cycles-none}
use skylet.Prelude.{◌↔◌}
use skylet.Graph.Reaching.{Reach, transitive_dependencies}
use skylet.Graph.Closure.{transitive_dependencies-Reach}
use skylet.Graph.NoCycles.{detect_cycles_complete}
use skylet.Graph.Completeness.{IsSortable, topological_sort-succeeds}
use skylet.Graph.Building.{has_edge, IsWellFormed, build-IsWellFormed}
use skylet.Graph.Sorting.{
  IsActivationOrder, topological_sort-returns, topological_sort-IsActivationOrder,
}

abbrev pub depends_on : Text → Dependency
depends_on name = record { name = name; version_req = any_req; optional = false; features = [] }

abbrev pub plugin : Text → List Dependency → PluginNode
plugin id deps = record {
  id = id;
  version = new_version 1 0 0;
  dependencies = deps;
  features = [];
  optional = false;
}

-- The application needs the database and the log, and the database needs the log.
abbrev pub plugins : List PluginNode
plugins =
    plugin (codes "app") (depends_on (codes "db") ∷ depends_on (codes "log") ∷ [])
    ∷ plugin (codes "db") (depends_on (codes "log") ∷ [])
    ∷ plugin (codes "log") []
    ∷ []

abbrev pub order : List Text
order = codes "log" ∷ codes "db" ∷ codes "app" ∷ []

abbrev cyclic_plugins : List PluginNode
cyclic_plugins =
    plugin (codes "a") (depends_on (codes "b") ∷ [])
    ∷ plugin (codes "b") (depends_on (codes "a") ∷ [])
    ∷ []

pub sorted : topological_sort (build plugins) ≡ some (ok order)
unfolding topological_sort build add_plugin add_edges add_edge dependencies_of dependents_of text_eq
    Dict.insert Dict.lookup
sorted = refl

build-IsWellFormed_example : IsWellFormed (build cyclic_plugins)
build-IsWellFormed_example = build-IsWellFormed cyclic_plugins

topological_sort-returns_example :
    (r : Result (List Text) GraphError) × (topological_sort (build cyclic_plugins) ≡ some r)
topological_sort-returns_example =
    topological_sort-returns (build cyclic_plugins) (build-IsWellFormed cyclic_plugins)

topological_sort-IsActivationOrder_example : IsActivationOrder (build plugins) order
topological_sort-IsActivationOrder_example =
    topological_sort-IsActivationOrder (build plugins) order (build-IsWellFormed plugins) sorted

abbrev rank : Text → ℕ
rank a = if text_eq (codes "app") a then 2 else if text_eq (codes "db") a then 1 else 0

abbrev edges : List DependencyEdge
edges =
    record { from = codes "app"; to = codes "db"; dependency = depends_on (codes "db") }
    ∷ record { from = codes "app"; to = codes "log"; dependency = depends_on (codes "log") }
    ∷ record { from = codes "db"; to = codes "log"; dependency = depends_on (codes "log") }
    ∷ []

built_edges : (build plugins).edges ≡ edges
unfolding build add_plugin add_edges add_edge text_eq Dict.insert
built_edges = refl

built_keys : Dict.keys (build plugins).nodes ≡ codes "app" ∷ codes "db" ∷ codes "log" ∷ []
unfolding build add_plugin add_edges add_edge text_eq Dict.insert
built_keys = refl

edges-fall : (a b : Text) → has_edge a b edges ≡ true → rank b < rank a
edges-fall a b h = ground (
  arith,
  h,
  text_eq_iff (codes "app") a,
  text_eq_iff (codes "db") a,
  text_eq_iff (codes "db") b,
  text_eq_iff (codes "log") b,
  text_eq_iff (codes "app") b,
)

edges-present :
    (a b : Text)
    → has_edge a b edges ≡ true
    → contains b (codes "app" ∷ codes "db" ∷ codes "log" ∷ []) ≡ true
edges-present a b h = ground (
  arith,
  h,
  text_eq_comm (codes "app") b,
  text_eq_comm (codes "db") b,
  text_eq_comm (codes "log") b,
)

db-not_log : text_eq (codes "db") (codes "log") ≡ false
unfolding text_eq
db-not_log = refl

edges-distinct : (a : Text) → Nodup (targets a edges)
edges-distinct a = elim (Bool-cases (text_eq (codes "app") a)) [
  | inl e ↦
      let other : text_eq (codes "db") a ≡ false =
        ground (arith, e, text_eq_iff (codes "app") a, text_eq_iff (codes "db") a) in
      rw (e, other) (ground (arith, db-not_log), (refl, tt))
  | inr e ↦ elim (Bool-cases (text_eq (codes "db") a)) [
    | inl f ↦ rw (e, f) (refl, tt)
    | inr f ↦ rw (e, f) tt
  ]
]

plugins-IsSortable : IsSortable rank (build plugins)
plugins-IsSortable = record {
  ranked = record { falls = λ a b h. edges-fall a b (rw built_edges at h) };
  present = λ a b h. rw built_keys (edges-present a b (rw built_edges at h));
  distinct = λ a. rw built_edges (edges-distinct a);
}

detect_cycles-none_example : detect_cycles (build plugins) ≡ some []
detect_cycles-none_example =
    detect_cycles-none rank (build plugins) (build-IsWellFormed plugins) plugins-IsSortable.ranked

topological_sort-succeeds_example :
    (l : List Text) × (topological_sort (build plugins) ≡ some (ok l))
    × IsActivationOrder (build plugins) l
topological_sort-succeeds_example =
    topological_sort-succeeds rank (build plugins) (build-IsWellFormed plugins) plugins-IsSortable

transitive_dependencies-Reach_example :
    (names : List Text) × (transitive_dependencies (codes "app") (build plugins) ≡ some names)
    × ((a : Text)
        → (contains a names ≡ true)
          ↔ Reach (λ x. dep_names (dependencies_of x (build plugins))) (codes "app") a)
transitive_dependencies-Reach_example = transitive_dependencies-Reach (codes "app") (build plugins)

no_cycles : detect_cycles (build plugins) ≡ some []
unfolding detect_cycles build add_plugin add_edges add_edge dependencies_of text_eq Dict.insert
    Dict.lookup
no_cycles = refl

detect_cycles_complete_example :
    ¬ (Reach (λ x. dep_names (dependencies_of x (build plugins))) (codes "app") (codes "app"))
detect_cycles_complete_example = detect_cycles_complete (build plugins) (codes "app") no_cycles
