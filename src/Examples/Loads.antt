-- ===== src/Examples/Loads.antt =====
-- Loading orders (src/plugin_manager/dependency_resolver.rs) at sample values.
use skylet.Prelude.{◌≡◌, refl, Option, some, none, List, [], ◌∷◌, if◌then◌else◌, ok}
use skylet.Prelude.Texts.{Text, codes, text_eq}
use skylet.Prelude.Dict
use skylet.Graph.{add_plugin, add_edges, add_edge, dependencies_of, dependents_of}
use skylet.Loading.{resolve_plugin_order}
use skylet.Loading.Order.{IsLoadingOrder, resolve_plugin_order-IsLoadingOrder}

abbrev plugins : List (Text × Text)
plugins = (codes "db", codes "v2") ∷ (codes "log", codes "v1") ∷ []

abbrev dependencies : Text → Option (List Text)
dependencies name = if text_eq name (codes "db") then some (codes "log@*" ∷ []) else none

abbrev loads : List (Text × Text)
loads = (codes "log", codes "v1") ∷ (codes "db", codes "v2") ∷ []

loaded : resolve_plugin_order plugins dependencies ≡ some (ok loads)
unfolding resolve_plugin_order add_plugin add_edges add_edge dependencies_of dependents_of text_eq
    Dict.insert Dict.lookup
loaded = refl

resolve_plugin_order-IsLoadingOrder_example : IsLoadingOrder plugins dependencies loads
resolve_plugin_order-IsLoadingOrder_example =
    resolve_plugin_order-IsLoadingOrder plugins dependencies loads loaded
