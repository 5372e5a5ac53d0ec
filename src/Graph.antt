-- ===== src/Graph.antt =====
-- abi/src/dependencies/graph.rs: the dependency graph, cycle detection and topological sorting.
-- `None` of the sorting functions stands for what the code has no value for: a loop that is cut off
-- by its fuel, or a counter that is taken below zero.
pub mod Building
pub mod Order
pub mod Cycles
pub mod Kahn
pub mod Acyclic
pub mod Exact
pub mod Completeness
pub mod Reaching
pub mod Closure
pub mod Finishing
pub mod Visits
pub mod NoCycles
pub mod Sorting
use skylet.Prelude.{
  ℕ, zero, suc, ◌+◌, Bool, true, false, not, ◌&&◌, Option, none, some, List, [], ◌∷◌, ◌++◌, map,
  ◌==◌, if◌then◌else◌, Result, ok, err,
}
use mathlib.Core.List.{reverse, foldl}
use skylet.Prelude.Lists.{length}
use skylet.Prelude.Texts.{Text, codes, text_eq, contains, join}
use skylet.Prelude.Dict
use skylet.Prelude.Dict.{Dict}
use skylet.Prelude.Sets.{set_insert}
use skylet.Version.{Version}
use skylet.Constraint.{VersionReq}

pub record Dependency : Type 0 where
  pub name : Text
  pub version_req : VersionReq
  pub optional : Bool
  pub features : List Text

pub record PluginNode : Type 0 where
  pub id : Text
  pub version : Version
  pub dependencies : List Dependency
  pub features : List Text
  pub optional : Bool

pub record DependencyEdge : Type 0 where
  pub from : Text
  pub to : Text
  pub dependency : Dependency

pub record DependencyGraph : Type 0 where
  pub nodes : Dict PluginNode
  pub edges : List DependencyEdge
  pub dependents : Dict (List Text)

pub data GraphError : Type 0 where
  cyclic_dependency : List Text → GraphError
  missing_dependency : (plugin dependency : Text) → GraphError
  version_conflict : (plugin dependency required available : Text) → GraphError
  plugin_not_found : Text → GraphError

abbrev pub new_graph : DependencyGraph
new_graph = record { nodes = []; edges = []; dependents = [] }

abbrev pub or_empty : Option (List Text) → List Text
or_empty none = []
or_empty (some l) = l

-- `dependents_of`, an absent set being empty.
unfoldable pub dependents_of : Text → DependencyGraph → List Text
dependents_of id g = or_empty (Dict.lookup id g.dependents)

-- One round of the loop of `add_plugin`.
unfoldable pub add_edge : Text → Dependency → DependencyGraph → DependencyGraph
add_edge id dep g = record g {
  edges = g.edges ++ record { from = id; to = dep.name; dependency = dep } ∷ [];
  dependents =
      Dict.insert dep.name (set_insert id (or_empty (Dict.lookup dep.name g.dependents)))
        g.dependents;
}

unfoldable pub add_edges : Text → List Dependency → DependencyGraph → DependencyGraph
add_edges id [] g = g
add_edges id (dep ∷ deps) g = add_edges id deps (add_edge id dep g)

unfoldable pub add_plugin : PluginNode → DependencyGraph → DependencyGraph
add_plugin node g =
    let g' = add_edges node.id node.dependencies g in
    record g' { nodes = Dict.insert node.id node g'.nodes }

-- A graph that is built up from plugins.
unfoldable pub build : List PluginNode → DependencyGraph
build = foldl (λ g node. add_plugin node g) new_graph

abbrev pub deps_or_none : Option PluginNode → List Dependency
deps_or_none none = []
deps_or_none (some node) = node.dependencies

unfoldable pub dependencies_of : Text → DependencyGraph → List Dependency
dependencies_of id g = deps_or_none (Dict.lookup id g.nodes)

-- The variables that the depth-first search shares.
pub record Search : Type 0 where
  pub visited : List Text
  pub rec_stack : List Text
  pub path : List Text
  pub cycles : List (List Text)

abbrev pub without : Text → List Text → List Text
without x [] = []
without x (y ∷ l) = let rest = without x l in if text_eq y x then rest else y ∷ rest

abbrev pub drop_last : List Text → List Text
drop_last [] = []
drop_last (x ∷ []) = []
drop_last (x ∷ y ∷ l) = x ∷ drop_last (y ∷ l)

-- `path[position..]` from the first place of a name.
abbrev pub from_first : Text → List Text → Option (List Text)
from_first x [] = none
from_first x (y ∷ l) = if text_eq y x then some (y ∷ l) else from_first x l

abbrev add_cycle : Option (List Text) → Search → Search
add_cycle none s = s
add_cycle (some cycle) s = record s { cycles = s.cycles ++ cycle ∷ [] }

abbrev enter : Text → Search → Search
enter id s = record s {
  visited = set_insert id s.visited;
  rec_stack = set_insert id s.rec_stack;
  path = s.path ++ id ∷ [];
}

abbrev leave : Text → Option Search → Option Search
leave id none = none
leave id (some s) = some (record s { path = drop_last s.path; rec_stack = without id s.rec_stack })

abbrev pub and_then {ℓ κ} : {A : Type ℓ} {B : Type κ} → Option A → (A → Option B) → Option B
and_then none f = none
and_then (some a) f = f a

-- One dependency, `visit` being the recursive call.
unfoldable pub visit_one : (Text → Search → Option Search) → Text → Search → Option Search
visit_one visit name s =
    if not (contains name s.visited)
    then visit name s
    else if contains name s.rec_stack
    then some (add_cycle (from_first name s.path) s)
    else some s

-- The loop over the dependencies.
unfoldable pub visit_all :
    (Text → Search → Option Search) → List Dependency → Search → Option Search
unfolding visit_one
visit_all visit [] s = some s
visit_all visit (dep ∷ deps) s = and_then (visit_one visit dep.name s) (visit_all visit deps)

-- `detect_cycles_dfs`
unfoldable pub detect_cycles_dfs : ℕ → DependencyGraph → Text → Search → Option Search
unfolding visit_all
detect_cycles_dfs zero g id s = none
detect_cycles_dfs (suc fuel) g id s =
    leave id (visit_all (detect_cycles_dfs fuel g) (dependencies_of id g) (enter id s))

unfoldable pub search_from : ℕ → DependencyGraph → List Text → Search → Option Search
search_from fuel g [] s = some s
search_from fuel g (id ∷ ids) s =
    and_then (if not (contains id s.visited) then detect_cycles_dfs fuel g id s else some s)
      (search_from fuel g ids)

abbrev pub dep_names : List Dependency → List Text
dep_names [] = []
dep_names (d ∷ ds) = d.name ∷ dep_names ds

abbrev pub node_names : Dict PluginNode → List Text
node_names [] = []
node_names ((id, node) ∷ m) = id ∷ dep_names node.dependencies ++ node_names m

-- Each recursive call visits one more of the names in the graph, so their number bounds the depth.
abbrev pub search_fuel : DependencyGraph → ℕ
search_fuel g = suc (length (node_names g.nodes))

abbrev found_cycles : Option Search → Option (List (List Text))
found_cycles none = none
found_cycles (some s) = some s.cycles

unfoldable pub detect_cycles : DependencyGraph → Option (List (List Text))
unfolding detect_cycles_dfs search_from
detect_cycles g = found_cycles (
    search_from (search_fuel g) g (Dict.keys g.nodes)
      (record { visited = []; rec_stack = []; path = []; cycles = [] }))

abbrev or_zero : Option ℕ → ℕ
or_zero none = 0
or_zero (some n) = n

abbrev zero_degrees : List Text → Dict ℕ
zero_degrees [] = []
zero_degrees (id ∷ ids) = (id, 0) ∷ zero_degrees ids

-- Each edge counts for its dependent side.
unfoldable pub count_edges : List DependencyEdge → Dict ℕ → Dict ℕ
count_edges [] m = m
count_edges (e ∷ es) m = count_edges es (Dict.insert e.from (or_zero (Dict.lookup e.from m) + 1) m)

unfoldable pub in_degrees : DependencyGraph → Dict ℕ
unfolding count_edges
in_degrees g = count_edges g.edges (zero_degrees (Dict.keys g.nodes))

unfoldable pub ready : Dict ℕ → List Text
ready [] = []
ready ((id, deg) ∷ m) = if deg == 0 then id ∷ ready m else ready m

-- The loop over the dependents of a plugin that is taken off the queue.
unfoldable pub relax : List Text → Dict ℕ → List Text → Option (Dict ℕ × List Text)
relax [] m queue = some (m, queue)
relax (id ∷ ids) m queue = elim (Dict.lookup id m) [
  | none ↦ relax ids m queue
  | some deg ↦ elim deg [
    | zero ↦ none
    | suc d ↦ relax ids (Dict.insert id d m) (if d == 0 then queue ++ id ∷ [] else queue)
  ]
]

unfoldable pub kahn : ℕ → DependencyGraph → Dict ℕ → List Text → List Text → Option (List Text)
kahn fuel g m [] result = some result
kahn zero g m (id ∷ queue) result = none
kahn (suc fuel) g m (id ∷ queue) result =
    and_then (relax (dependents_of id g) m queue)
      (λ (m', queue'). kahn fuel g m' queue' (result ++ id ∷ []))

-- Each round takes one plugin off the queue, and none comes back.
unfoldable pub sort_unchecked : DependencyGraph → Option (List Text)
unfolding in_degrees ready relax kahn
sort_unchecked g = let m = in_degrees g in kahn (length m) g m (ready m) []

abbrev joined : List (List Text) → List Text
joined = map (join (codes " -> "))

abbrev sorted_or_error : DependencyGraph → List Text → Result (List Text) GraphError
sorted_or_error g result =
    if not (length result == length g.nodes)
    then err (cyclic_dependency (codes "Unknown cycle detected" ∷ []))
    else ok result

unfoldable pub topological_sort : DependencyGraph → Option (Result (List Text) GraphError)
unfolding detect_cycles sort_unchecked
topological_sort g = and_then (detect_cycles g) (λ cycles. elim cycles [
  | [] ↦ and_then (sort_unchecked g) (λ result. some (sorted_or_error g result))
  | c ∷ cs ↦ some (err (cyclic_dependency (joined (c ∷ cs))))
])

unfoldable pub activation_order : DependencyGraph → Option (Result (List Text) GraphError)
activation_order = topological_sort

abbrev reversed : Result (List Text) GraphError → Result (List Text) GraphError
reversed (ok order) = ok (reverse order)
reversed (err e) = err e

unfoldable pub deactivation_order : DependencyGraph → Option (Result (List Text) GraphError)
deactivation_order g = and_then (topological_sort g) (λ r. some (reversed r))
