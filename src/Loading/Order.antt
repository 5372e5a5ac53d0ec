-- ===== src/Loading/Order.antt =====
-- The order that `resolve_loading_order` of src/plugin_manager/dependency_resolver.rs returns.
use skylet.Prelude.{
  ◌≡◌, refl, sym, ap, ◌∙◌, true, Option, none, some, List, [], ◌∷◌, arith, Result, ok, err, map,
  Option-cases, inl, inr,
}
use skylet.Prelude.Lists.{All}
use skylet.Prelude.Texts.{Text, contains}
use skylet.Prelude.Dict
use skylet.Prelude.Dict.{Dict, lookup-insert}
use skylet.Prelude.Sets.{Nodup, keys_iff, contains-of_All, All-contains}
use skylet.Graph.{DependencyGraph, GraphError, new_graph, detect_cycles, topological_sort}
use skylet.Graph.Building.{has_edge, IsWellFormed}
use skylet.Graph.Sorting.{topological_sort-returns, topological_sort-IsActivationOrder}
use skylet.Graph.Cycles.{detect_cycles-returns}
use skylet.Loading.{
  dependencies_or_none, Manifests, LoadError, cyclic_dependencies, add_manifests, with_abi_versions,
  order_graph, loading_order, resolve_loading_order, register_all, resolve_plugin_order,
}
use skylet.Loading.Edges.{dependency_name, HasEdges, add_manifests-HasEdges}
use skylet.Loading.Registered.{
  last_abi, registered_manifest, register_all-keys, with_abi_versions-All, DependenciesFirst,
  InOrder-DependenciesFirst,
}
use skylet.Loading.Manifests.{
  register_all-IsNamed, add_manifests-IsGraphOf, names_of, names_of-with_abi_versions,
  new_graph-IsWellFormed,
}

-- A loading order of registered plugins: it names each of them once, with the ABI version of its last
-- registration, and behind the plugins that its dependency strings name.
pub record IsLoadingOrder (plugins : List (Text × Text))
    (get_dependencies : Text → Option (List Text)) (result : List (Text × Text)) : Type 0 where
  pub once : Nodup (names_of result)
  pub complete : (a : Text) → contains a (names_of result) ≡ contains a (names_of plugins)
  pub versions : All (λ r. last_abi r.0 plugins ≡ some r.1) result
  pub behind : DependenciesFirst get_dependencies [] (names_of result)

order_graph-ok :
    (m : Manifests) (g : DependencyGraph) (result : List (Text × Text))
    → order_graph m g ≡ some (ok result)
    → (order : List Text) × (topological_sort g ≡ some (ok order))
      × (with_abi_versions m order ≡ result)
order_graph-ok m g result h = go (detect_cycles g) refl
  where
    sorted :
        detect_cycles g ≡ some []
        → (t : Option (Result (List Text) GraphError)) → topological_sort g ≡ t
        → (order : List Text) × (topological_sort g ≡ some (ok order))
          × (with_abi_versions m order ≡ result)
    sorted e none k = ground (arith, h, e, k)
    sorted e (some (err x)) k = ground (arith, h, e, k)
    sorted e (some (ok order)) k = (order, k, ground (arith, h, e, k))

    go :
        (cycles : Option (List (List Text)))
        → detect_cycles g ≡ cycles
        → (order : List Text) × (topological_sort g ≡ some (ok order))
          × (with_abi_versions m order ≡ result)
    go none e = ground (arith, h, e)
    go (some []) e = sorted e (topological_sort g) refl
    go (some (c ∷ cs)) e = ground (arith, h, e)

-- The edges of the graph show the dependencies that were registered.
edge-of_dependency :
    (plugins : List (Text × Text)) (get_dependencies : Text → Option (List Text))
    (g : DependencyGraph) (a b : Text)
    → HasEdges (register_all get_dependencies plugins []) new_graph g
    → contains a (Dict.keys (register_all get_dependencies plugins [])) ≡ true
    → contains b (map dependency_name (dependencies_or_none (get_dependencies a))) ≡ true
    → has_edge a b g.edges ≡ true
edge-of_dependency plugins get_dependencies g a b edges known i =
    let m = register_all get_dependencies plugins [] in
    elim (Option-cases (Dict.lookup a m)) [
      | inl e ↦ absurd (ground (arith, e, known, keys_iff a m))
      | inr (p, e) ↦
          let (abi, deps) = registered_manifest get_dependencies plugins a p e in
          edges.added a b p e (rw (sym deps) at i)
    ]

ordered-IsLoadingOrder :
    (plugins : List (Text × Text)) (get_dependencies : Text → Option (List Text))
    (g : DependencyGraph) (result : List (Text × Text))
    → add_manifests (register_all get_dependencies plugins []) new_graph ≡ ok g
    → order_graph (register_all get_dependencies plugins []) g ≡ some (ok result)
    → IsLoadingOrder plugins get_dependencies result
ordered-IsLoadingOrder plugins get_dependencies g result built h =
    let m = register_all get_dependencies plugins [] in
    let n = register_all-IsNamed get_dependencies plugins [] tt in
    let of_graph = add_manifests-IsGraphOf m new_graph g n new_graph-IsWellFormed built in
    let (order, sorted, same) = order_graph-ok m g result h in
    let is_order = topological_sort-IsActivationOrder g order of_graph.well_formed sorted in
    let known : (a : Text) → contains a order ≡ true → contains a (Dict.keys m) ≡ true = λ a i.
      sym (of_graph.names a)
      ∙ contains-of_All (λ b. contains b (Dict.keys g.nodes) ≡ true) order a is_order.only_plugins
          i in
    let back : (a : Text) → contains a (Dict.keys m) ≡ true → contains a order ≡ true = λ a i.
      contains-of_All (λ b. contains b order ≡ true) (Dict.keys g.nodes) a is_order.all_plugins
        (of_graph.names a ∙ i) in
    let names : names_of result ≡ order =
      ap names_of (sym same)
      ∙ names_of-with_abi_versions m order n
          (All-contains (λ a. contains a (Dict.keys m) ≡ true) order known) in
    record {
      once = rw names is_order.once;
      complete = λ a.
          rw names
            (ground (arith, known a, back a, register_all-keys get_dependencies plugins [] a));
      versions = rw (sym same) (
          with_abi_versions-All (λ r. last_abi r.0 plugins ≡ some r.1) m order n
            (λ a p e. (registered_manifest get_dependencies plugins a p e).0));
      behind = rw names (
          InOrder-DependenciesFirst get_dependencies g.edges [] order
            (All-contains _ order (λ a i b j.
              edge-of_dependency plugins get_dependencies g a b
                (add_manifests-HasEdges m new_graph g n built) (known a i) j))
            is_order.behind);
    }

-- When `resolve_plugin_order` succeeds, its result names each plugin that it was given, and no other, once,
-- with the ABI version that the plugin was given with last, and behind every plugin that one of its
-- dependency strings names: what stands there before the first `@`.
pub resolve_plugin_order-IsLoadingOrder :
    (plugins : List (Text × Text)) (get_dependencies : Text → Option (List Text))
    (result : List (Text × Text))
    → resolve_plugin_order plugins get_dependencies ≡ some (ok result)
    → IsLoadingOrder plugins get_dependencies result
unfolding resolve_plugin_order resolve_loading_order
resolve_plugin_order-IsLoadingOrder plugins get_dependencies result h =
    go (add_manifests (register_all get_dependencies plugins []) new_graph) refl
  where
    go :
        (r : Result DependencyGraph LoadError)
        → add_manifests (register_all get_dependencies plugins []) new_graph ≡ r
        → IsLoadingOrder plugins get_dependencies result
    go (err e) k = ground (arith, h, k)
    go (ok g) k = ordered-IsLoadingOrder plugins get_dependencies g result k (ground (arith, h, k))

order_graph-returns :
    (m : Manifests) (g : DependencyGraph)
    → IsWellFormed g
    → (r : Result (List (Text × Text)) LoadError) × (order_graph m g ≡ some r)
order_graph-returns m g wf =
    let (cycles, e) = detect_cycles-returns g in
    let (t, f) = topological_sort-returns g wf in go cycles e t f
  where
    go :
        (cycles : List (List Text))
        → detect_cycles g ≡ some cycles
        → (t : Result (List Text) GraphError) → topological_sort g ≡ some t
        → (r : Result (List (Text × Text)) LoadError) × (order_graph m g ≡ some r)
    go [] e t f = (loading_order m t, rw e (rw f refl))
    go (c ∷ cs) e t f = (err (cyclic_dependencies (c ∷ cs)), rw e refl)

-- Resolving a loading order always comes to a result, an order or an error.
pub resolve_plugin_order-returns :
    (plugins : List (Text × Text)) (get_dependencies : Text → Option (List Text))
    → (r : Result (List (Text × Text)) LoadError) × (resolve_plugin_order plugins get_dependencies
        ≡ some r)
unfolding resolve_plugin_order resolve_loading_order
resolve_plugin_order-returns plugins get_dependencies =
    go (add_manifests (register_all get_dependencies plugins []) new_graph) refl
  where
    go :
        (r : Result DependencyGraph LoadError)
        → add_manifests (register_all get_dependencies plugins []) new_graph ≡ r
        → (s : Result (List (Text × Text)) LoadError) × (resolve_plugin_order plugins
              get_dependencies
            ≡ some s)
    go (err e) k = (err e, ground (arith, k))
    go (ok g) k =
        let m = register_all get_dependencies plugins [] in
        let of_graph =
          add_manifests-IsGraphOf m new_graph g
            (register_all-IsNamed get_dependencies plugins [] tt) new_graph-IsWellFormed k in
        let (s, e) = order_graph-returns m g of_graph.well_formed in (s, ground (arith, k, e))
