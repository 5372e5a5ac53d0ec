-- ===== src/Resolver.antt =====
-- abi/src/dependencies/resolver.rs: the choice of a version for each plugin of a dependency graph.
pub mod Extremes
pub mod Selection
pub mod Resolution
pub mod Stability
pub mod Conflicts
use skylet.Prelude.{
  ◌≡◌, Bool, true, false, not, ◌&&◌, Option, none, some, List, [], ◌∷◌, ◌++◌, map, Ordering,
  if◌then◌else◌, Result, ok, err, ◌>>=◌,
}
use skylet.Prelude.Lists.{any, all, filter, find?}
use skylet.Prelude.Texts.{Text, codes, join}
use skylet.Prelude.Dict
use skylet.Prelude.Dict.{Dict}
use skylet.Version.{Version, cmp_version, is_stable, is_prerelease}
use skylet.Constraint.{VersionReq, req_matches}
use skylet.Graph.{
  PluginNode, DependencyEdge, DependencyGraph, GraphError, cyclic_dependency, missing_dependency,
  version_conflict, plugin_not_found, detect_cycles, topological_sort, and_then,
}

-- Rust's `RequirementSource` and `ConflictRequirement` have the same two fields.
pub record RequirementSource : Type 0 where
  pub plugin : Text
  pub version_req : VersionReq

pub record ConflictRequirement : Type 0 where
  pub required_by : Text
  pub version_req : VersionReq

pub record VersionConflict : Type 0 where
  pub plugin : Text
  pub requirements : List ConflictRequirement

pub record ResolvedPlugin : Type 0 where
  pub id : Text
  pub version : Version
  pub required_by : List RequirementSource

pub data ResolutionWarning : Type 0 where
  version_selected :
      (plugin : Text) (available : List Version) (selected : Version) → ResolutionWarning
  optional_not_resolved : (plugin dependency : Text) → ResolutionWarning
  prerelease_used : (plugin : Text) (version : Version) → ResolutionWarning

-- Rust's struct `Resolution`.
pub record Resolved : Type 0 where
  pub plugins : Dict ResolvedPlugin
  pub graph : DependencyGraph
  pub warnings : List ResolutionWarning

pub data ResolutionError : Type 0 where
  cyclic : List Text → ResolutionError
  missing : (plugin dependency : Text) → ResolutionError
  unresolvable_conflict : VersionConflict → ResolutionError
  no_satisfying_version :
      (plugin : Text) (requirements : List ConflictRequirement) (available : List Version)
      → ResolutionError
  not_found : Text → ResolutionError

pub data ResolutionStrategy : Type 0 where
  newest oldest close_to_target : ResolutionStrategy

pub record DependencyResolver : Type 0 where
  pub available : Dict (List Version)
  pub strategy : ResolutionStrategy
  pub include_prerelease : Bool

abbrev pub new_resolver : DependencyResolver
new_resolver = record { available = []; strategy = newest; include_prerelease = false }

unfoldable pub add_plugin_versions : Text → List Version → DependencyResolver → DependencyResolver
add_plugin_versions plugin versions r = record r {
  available = Dict.insert plugin versions r.available;
}

-- A version that meets all of some requirements.
abbrev pub meets : List ConflictRequirement → Version → Bool
meets reqs v = all (λ r. req_matches r.version_req v) reqs

unfoldable pub is_satisfied_by : VersionConflict → Version → Bool
unfolding req_matches
is_satisfied_by c v = meets c.requirements v

unfoldable pub find_satisfying_version : VersionConflict → List Version → Option Version
unfolding is_satisfied_by
find_satisfying_version c candidates = find? (is_satisfied_by c) candidates

-- `Iterator::max` keeps the last of the greatest values.
unfoldable pub max_from : Version → List Version → Version
max_from v [] = v
max_from v (w ∷ ws) = elim (cmp_version v w) [ Ordering.gt ↦ max_from v ws | _ ↦ max_from w ws ]

-- `Iterator::min` keeps the first of the least values.
unfoldable pub min_from : Version → List Version → Version
min_from v [] = v
min_from v (w ∷ ws) = elim (cmp_version v w) [ Ordering.gt ↦ min_from w ws | _ ↦ min_from v ws ]

unfoldable pub choose : ResolutionStrategy → Version → List Version → Version
unfolding max_from min_from
choose newest v vs = max_from v vs
choose oldest v vs = min_from v vs
choose close_to_target v vs = max_from v vs

abbrev pub choose_or_fail :
    DependencyResolver
    → List Version
    → List ConflictRequirement
    → List Version
    → Result Version ResolutionError
choose_or_fail r candidates reqs [] = err (no_satisfying_version (codes "unknown") reqs candidates)
choose_or_fail r candidates reqs (v ∷ vs) = ok (choose r.strategy v vs)

-- The early return for no candidate gives the same error as none that meets the requirements.
unfoldable pub select_version :
    DependencyResolver → List Version → List ConflictRequirement → Result Version ResolutionError
unfolding choose req_matches
select_version r [] reqs = err (no_satisfying_version (codes "unknown") reqs [])
select_version r (c ∷ cs) reqs = choose_or_fail r (c ∷ cs) reqs (filter (meets reqs) (c ∷ cs))

abbrev pub versions_or : List Version → Option (List Version) → List Version
versions_or vs none = vs
versions_or vs (some ws) = ws

abbrev pub or_no_reqs : Option (List ConflictRequirement) → List ConflictRequirement
or_no_reqs none = []
or_no_reqs (some reqs) = reqs

abbrev pub requirement : DependencyEdge → ConflictRequirement
requirement e = record { required_by = e.from; version_req = e.dependency.version_req }

unfoldable pub collect_from :
    List DependencyEdge → Dict (List ConflictRequirement) → Dict (List ConflictRequirement)
collect_from [] m = m
collect_from (e ∷ es) m =
    collect_from es (Dict.insert e.to (or_no_reqs (Dict.lookup e.to m) ++ requirement e ∷ []) m)

unfoldable pub collect_requirements : DependencyGraph → Dict (List ConflictRequirement)
unfolding collect_from
collect_requirements g = collect_from g.edges []

-- The registered versions, or else the plugin's own, less the pre-releases unless they are wanted.
unfoldable pub candidates_of : DependencyResolver → Text → PluginNode → List Version
unfolding is_stable
candidates_of r id node =
    let available = versions_or (node.version ∷ []) (Dict.lookup id r.available) in
    if r.include_prerelease then available else filter is_stable available

-- What is stored for a plugin once its version is selected.
abbrev pub resolved_plugin : Text → List ConflictRequirement → Version → ResolvedPlugin
resolved_plugin id reqs selected = record {
  id = id;
  version = selected;
  required_by = map (λ q. record { plugin = q.required_by; version_req = q.version_req }) reqs;
}

unfoldable pub store : Text → List ConflictRequirement → Version → Resolved → Resolved
unfolding is_prerelease
store id reqs selected res = record res {
  plugins = Dict.insert id (resolved_plugin id reqs selected) res.plugins;
  warnings =
      if is_prerelease selected
      then res.warnings ++ prerelease_used id selected ∷ []
      else res.warnings;
}

unfoldable pub resolve_plugin :
    DependencyResolver
    → Dict (List ConflictRequirement)
    → Text
    → Resolved
    → Result Resolved ResolutionError
unfolding candidates_of select_version store
resolve_plugin r requirements id res = elim (Dict.lookup id res.graph.nodes) [
  | none ↦ err (not_found id)
  | some node ↦ do
    let reqs = or_no_reqs (Dict.lookup id requirements)
    selected ← select_version r (candidates_of r id node) reqs
    ok (store id reqs selected res)
]

unfoldable pub resolve_all :
    DependencyResolver
    → Dict (List ConflictRequirement)
    → List Text
    → Resolved
    → Result Resolved ResolutionError
unfolding resolve_plugin
resolve_all r requirements [] res = ok res
resolve_all r requirements (id ∷ ids) res =
    resolve_plugin r requirements id res >>= resolve_all r requirements ids

abbrev of_graph_error : GraphError → ResolutionError
of_graph_error (cyclic_dependency cycles) = cyclic cycles
of_graph_error (missing_dependency _ _) = not_found (codes "unknown")
of_graph_error (version_conflict _ _ _ _) = not_found (codes "unknown")
of_graph_error (plugin_not_found _) = not_found (codes "unknown")

abbrev pub unresolved : DependencyGraph → Resolved
unresolved g = record { plugins = []; graph = g; warnings = [] }

abbrev resolve_sorted :
    DependencyResolver
    → DependencyGraph
    → Result (List Text) GraphError
    → Result Resolved ResolutionError
resolve_sorted r g (err e) = err (of_graph_error e)
resolve_sorted r g (ok order) = resolve_all r (collect_requirements g) order (unresolved g)

-- `None` where a loop of the graph does not come to its end (see Graph).
unfoldable pub resolve :
    DependencyResolver → DependencyGraph → Option (Result Resolved ResolutionError)
unfolding detect_cycles topological_sort collect_requirements resolve_all
resolve r g = and_then (detect_cycles g) (λ cycles. elim cycles [
  | [] ↦ and_then (topological_sort g) (λ order. some (resolve_sorted r g order))
  | c ∷ cs ↦ some (err (cyclic (map (join (codes " -> ")) (c ∷ cs))))
])

unfoldable pub is_conflict : DependencyResolver → Text → List ConflictRequirement → Bool
unfolding req_matches
is_conflict r plugin reqs =
    not (any (meets reqs) (versions_or [] (Dict.lookup plugin r.available)))
    && elim reqs [ [] ↦ false | _ ∷ _ ↦ true ]

unfoldable pub conflicts_in :
    DependencyResolver → Dict (List ConflictRequirement) → List VersionConflict
unfolding is_conflict
conflicts_in r [] = []
conflicts_in r ((plugin, reqs) ∷ m) =
    let rest = conflicts_in r m in
    if is_conflict r plugin reqs
    then record { plugin = plugin; requirements = reqs } ∷ rest
    else rest

unfoldable pub detect_conflicts : DependencyResolver → DependencyGraph → List VersionConflict
unfolding collect_requirements conflicts_in
detect_conflicts r g = conflicts_in r (collect_requirements g)

unfoldable pub can_resolve : DependencyResolver → DependencyGraph → Option Bool
unfolding detect_cycles detect_conflicts
can_resolve r g = and_then (detect_cycles g) (λ cycles. elim cycles [
  | [] ↦ some (elim (detect_conflicts r g) [ [] ↦ true | _ ∷ _ ↦ false ])
  | _ ∷ _ ↦ some false
])
