-- ===== src/Examples/Resolutions.antt =====
-- The dependency resolver (abi/src/dependencies/resolver.rs) at sample values.
use skylet.Prelude.{◌≡◌, ◌↔◌, refl, true, false, some, List, [], ◌∷◌, ok}
use skylet.Prelude.Texts.{Text, codes, contains, text_eq}
use skylet.Prelude.Dict
use skylet.Version.{Version, new_version, cmp_version}
use skylet.Constraint.{matches}
use skylet.Graph.{
  Dependency, PluginNode, build, add_plugin, add_edges, add_edge, dependents_of, dependencies_of,
  detect_cycles,
}
use skylet.Graph.Building.{build-IsWellFormed}
use skylet.Resolver.{
  ConflictRequirement, ResolvedPlugin, Resolved, DependencyResolver, new_resolver, select_version,
  resolve, can_resolve,
}
use skylet.Resolver.Selection.{IsSelection, select_version-IsSelection}
use skylet.Resolver.Resolution.{IsResolved, resolve-IsResolved, requirements_on}
use skylet.Resolver.Conflicts.{IsMet, can_resolve_iff}
use skylet.Examples.Versions.{release, next_minor, caret_req}
use skylet.Examples.Graphs.{plugin}

abbrev from_release : ConflictRequirement
from_release = record { required_by = codes "app"; version_req = caret_req }

abbrev candidates : List Version
candidates = release ∷ next_minor ∷ new_version 2 0 0 ∷ []

selected : select_version new_resolver candidates (from_release ∷ []) ≡ ok next_minor
unfolding select_version cmp_version matches
selected = refl

select_version-IsSelection_example :
    IsSelection new_resolver candidates (from_release ∷ []) next_minor
select_version-IsSelection_example =
    select_version-IsSelection new_resolver candidates (from_release ∷ []) next_minor selected

abbrev needs_release : Dependency
needs_release = record {
  name = codes "db";
  version_req = caret_req;
  optional = false;
  features = [];
}

abbrev two_plugins : List PluginNode
two_plugins = plugin (codes "app") (needs_release ∷ []) ∷ plugin (codes "db") [] ∷ []

abbrev resolver : DependencyResolver
resolver = record new_resolver { available = (codes "db", candidates) ∷ [] }

abbrev resolved_db : ResolvedPlugin
resolved_db = record {
  id = codes "db";
  version = next_minor;
  required_by = record { plugin = codes "app"; version_req = caret_req } ∷ [];
}

abbrev resolution : Resolved
resolution = record {
  plugins =
      (codes "db", resolved_db)
      ∷ (codes "app", record { id = codes "app"; version = new_version 1 0 0; required_by = [] })
      ∷ [];
  graph = build two_plugins;
  warnings = [];
}

resolved : resolve resolver (build two_plugins) ≡ some (ok resolution)
unfolding resolve build add_plugin add_edges add_edge dependencies_of dependents_of text_eq
    Dict.insert Dict.lookup cmp_version matches
resolved = refl

known_db : contains (codes "db") (Dict.keys (build two_plugins).nodes) ≡ true
unfolding build add_plugin add_edges add_edge text_eq Dict.insert
known_db = refl

resolve-IsResolved_example : IsResolved resolver (build two_plugins) (codes "db") resolution
resolve-IsResolved_example =
    resolve-IsResolved resolver (build two_plugins) resolution (codes "db")
      (build-IsWellFormed two_plugins) resolved known_db

can_resolve_iff_example : (can_resolve resolver (build two_plugins) ≡ some true) ↔ (
    (detect_cycles (build two_plugins) ≡ some [])
    × ((a : Text) → IsMet resolver a (requirements_on a (build two_plugins).edges)))
can_resolve_iff_example = can_resolve_iff resolver (build two_plugins)
