-- ===== src/Loading.antt =====
-- src/plugin_manager/dependency_resolver.rs: plugin manifests and the order in which plugins are loaded.
-- An error value is the message that the source gives to `anyhow!`, without its arguments.
pub mod Manifests
pub mod Edges
pub mod Registered
pub mod Order
use skylet.Prelude.{
  Bool, true, false, Option, none, some, List, [], ◌∷◌, ◌++◌, map, Result, ok, err, ◌>>=◌, map_err,
}
use skylet.Prelude.Texts.{Text, codes, split, split_once, trim}
use skylet.Prelude.Dict
use skylet.Prelude.Dict.{Dict}
use skylet.Version.{Version, new_version, parse_version}
use skylet.Constraint.{VersionReq, ConstraintError, any_req, parse_req}
use skylet.Graph.{
  Dependency, PluginNode, DependencyGraph, GraphError, new_graph, add_plugin, detect_cycles,
  topological_sort, and_then,
}

pub record PluginManifest : Type 0 where
  pub name : Text
  pub version : Version
  pub dependencies : List Text
  pub abi_version : Text

-- `PluginDependencyResolver`, which holds the manifests alone.
abbrev pub Manifests : Type 0
Manifests = Dict PluginManifest

pub data LoadError : Type 0 where
  invalid_manifest : LoadError
  invalid_requirement : Text → ConstraintError → LoadError
  cyclic_dependencies : List (List Text) → LoadError
  unresolved : GraphError → LoadError

-- `version.and_then(|v| Version::parse(v).ok()).unwrap_or_else(|| Version::new(1, 0, 0))`
unfoldable pub version_or_default : Option Text → Version
unfolding parse_version
version_or_default none = new_version 1 0 0
version_or_default (some v) = elim (parse_version v) [ ok w ↦ w | err e ↦ new_version 1 0 0 ]

unfoldable pub register_plugin : Text → Text → List Text → Option Text → Manifests → Manifests
unfolding version_or_default
register_plugin name abi_version dependencies version m =
    Dict.insert name
      (record {
        name = name;
        version = version_or_default version;
        dependencies = dependencies;
        abi_version = abi_version;
      })
      m

abbrev register_parts : List Text → Manifests → Result Manifests LoadError
register_parts [] m = err invalid_manifest
register_parts (a ∷ []) m = err invalid_manifest
register_parts (name ∷ abi_version ∷ []) m = ok (register_plugin name abi_version [] none m)
register_parts (name ∷ abi_version ∷ deps ∷ _) m =
    ok (register_plugin name abi_version (map trim (split 44 deps)) none m)

unfoldable pub register_from_string : Text → Manifests → Result Manifests LoadError
unfolding split trim register_plugin
register_from_string manifest m = register_parts (split 58 manifest) m

-- `Dependency::new`
abbrev pub new_dependency : Text → VersionReq → Dependency
new_dependency name version_req = record {
  name = name;
  version_req = version_req;
  optional = false;
  features = [];
}

-- `splitn(2, '@')` gives the part behind the first `@`, if there is one.
unfoldable pub parse_dependency : Text → Result Dependency LoadError
unfolding split_once trim parse_req
parse_dependency dep_str = elim (split_once 64 dep_str) [
  | none ↦ ok (new_dependency (trim dep_str) any_req)
  | some (name, req) ↦ do
    version_req ← map_err (invalid_requirement req) (parse_req (trim req))
    ok (new_dependency (trim name) version_req)
]

unfoldable pub parse_dependencies : List Text → Result (List Dependency) LoadError
unfolding parse_dependency
parse_dependencies [] = ok []
parse_dependencies (d ∷ ds) =
    let rest = parse_dependencies ds in do dep ← parse_dependency d; deps ← rest; ok (dep ∷ deps)

-- `build_plugin_node`
unfoldable pub build_plugin_node : PluginManifest → Result PluginNode LoadError
unfolding parse_dependencies
build_plugin_node m = do
  deps ← parse_dependencies m.dependencies
  ok (record {
    id = m.name;
    version = m.version;
    dependencies = deps;
    features = [];
    optional = false;
  })

-- The loop over the manifests, which ends at the first one whose dependencies do not parse.
unfoldable pub add_manifests : Manifests → DependencyGraph → Result DependencyGraph LoadError
unfolding build_plugin_node add_plugin
add_manifests [] g = ok g
add_manifests ((name, m) ∷ ms) g =
    build_plugin_node m >>= (λ node. add_manifests ms (add_plugin node g))

-- The names of the order that have a manifest, with their ABI versions.
unfoldable pub with_abi_versions : Manifests → List Text → List (Text × Text)
with_abi_versions m [] = []
with_abi_versions m (name ∷ names) =
    let rest = with_abi_versions m names in
    elim (Dict.lookup name m) [ none ↦ rest | some p ↦ (p.name, p.abi_version) ∷ rest ]

abbrev pub loading_order :
    Manifests → Result (List Text) GraphError → Result (List (Text × Text)) LoadError
loading_order m (ok order) = ok (with_abi_versions m order)
loading_order m (err e) = err (unresolved e)

abbrev pub order_graph :
    Manifests → DependencyGraph → Option (Result (List (Text × Text)) LoadError)
order_graph m g = and_then (detect_cycles g) (λ cycles. elim cycles [
  | [] ↦ and_then (topological_sort g) (λ r. some (loading_order m r))
  | c ∷ cs ↦ some (err (cyclic_dependencies (c ∷ cs)))
])

-- `None` where a loop of the graph does not come to its end (see Graph).
unfoldable pub resolve_loading_order : Manifests → Option (Result (List (Text × Text)) LoadError)
unfolding add_manifests detect_cycles topological_sort with_abi_versions
resolve_loading_order m = elim (add_manifests m new_graph) [
  | err e ↦ some (err e)
  | ok g ↦ order_graph m g
]

abbrev pub dependencies_or_none : Option (List Text) → List Text
dependencies_or_none none = []
dependencies_or_none (some deps) = deps

unfoldable pub register_all :
    (Text → Option (List Text)) → List (Text × Text) → Manifests → Manifests
unfolding register_plugin
register_all get_dependencies [] m = m
register_all get_dependencies ((name, abi_version) ∷ ps) m =
    register_all get_dependencies ps
      (register_plugin name abi_version (dependencies_or_none (get_dependencies name)) none m)

-- `resolve_plugin_order`
unfoldable pub resolve_plugin_order :
    List (Text × Text)
    → (Text → Option (List Text))
    → Option (Result (List (Text × Text)) LoadError)
unfolding register_all resolve_loading_order
resolve_plugin_order plugins get_dependencies =
    resolve_loading_order (register_all get_dependencies plugins [])
