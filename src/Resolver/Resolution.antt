-- ===== src/Resolver/Resolution.antt =====
-- What `resolve` of abi/src/dependencies/resolver.rs returns for the plugins of a graph.
use skylet.Prelude.{
  ◌≡◌, refl, sym, ap, ◌∙◌, true, false, Option, none, some, List, [], ◌∷◌, ◌++◌, arith,
  if◌then◌else◌, Bool-cases, inl, inr, Result, ok, err,
}
use mathlib.Core.Path.{subst}
use mathlib.Core.List.{append_assoc, append-nil}
use skylet.Prelude.Lists.{All}
use skylet.Prelude.Texts.{Text, text_eq, text_eq_iff, text_eq_refl, contains}
use skylet.Prelude.Dict
use skylet.Prelude.Dict.{Dict, lookup-insert}
use skylet.Prelude.Sets.{contains-of_All}
use skylet.Version.{Version}
use skylet.Graph.{
  PluginNode, DependencyEdge, DependencyGraph, GraphError, detect_cycles, topological_sort,
}
use skylet.Graph.Building.{IsWellFormed}
use skylet.Graph.Sorting.{topological_sort-IsActivationOrder}
use skylet.Resolver.{
  ConflictRequirement, ResolvedPlugin, Resolved, ResolutionError, DependencyResolver,
  select_version, or_no_reqs, requirement, collect_from, collect_requirements, candidates_of, store,
  resolved_plugin, resolve_plugin, resolve_all, unresolved, resolve,
}
use skylet.Resolver.Selection.{IsSelection, select_version-IsSelection}

-- The requirements that the edges to a plugin make, in the order of the edges.
abbrev pub requirements_on : Text → List DependencyEdge → List ConflictRequirement
requirements_on a [] = []
requirements_on a (e ∷ es) =
    if text_eq e.to a then requirement e ∷ requirements_on a es else requirements_on a es

collect_from-lookup :
    (a : Text) (es : List DependencyEdge) (m : Dict (List ConflictRequirement))
    → or_no_reqs (Dict.lookup a (collect_from es m))
      ≡ or_no_reqs (Dict.lookup a m) ++ requirements_on a es
unfolding collect_from
collect_from-lookup a [] m = sym (append-nil (or_no_reqs (Dict.lookup a m)))
collect_from-lookup a (e ∷ es) m =
    let reqs = or_no_reqs (Dict.lookup e.to m) ++ requirement e ∷ [] in
    let rest = collect_from-lookup a es (Dict.insert e.to reqs m) in
    elim (Bool-cases (text_eq e.to a)) [
      | inl same ↦
          rest
          ∙ rw (same, lookup-insert e.to a reqs m, (text_eq_iff e.to a).0 same, text_eq_refl a)
              (append_assoc (or_no_reqs (Dict.lookup a m)) (requirement e ∷ [])
                (requirements_on a es))
      | inr other ↦ rest ∙ rw (lookup-insert e.to a reqs m, other) refl
    ]

-- The requirements that are collected for a plugin are those of the edges to it.
pub collect_requirements-lookup :
    (a : Text) (g : DependencyGraph)
    → or_no_reqs (Dict.lookup a (collect_requirements g)) ≡ requirements_on a g.edges
unfolding collect_requirements Dict.lookup
collect_requirements-lookup a g = collect_from-lookup a g.edges []

-- A plugin of the graph is resolved: its version is the best of its candidates that meets the
-- requirements of all edges to it.
pub record IsResolved (r : DependencyResolver) (g : DependencyGraph) (a : Text) (res : Resolved)
    : Type 0 where
  pub node : PluginNode
  pub is_node : Dict.lookup a g.nodes ≡ some node
  pub plugin : ResolvedPlugin
  pub is_plugin : Dict.lookup a res.plugins ≡ some plugin
  pub selection : IsSelection r (candidates_of r a node) (requirements_on a g.edges) plugin.version

-- A step of the loop from `res` to `res'`, for the plugin `a`.
record IsStep (r : DependencyResolver) (g : DependencyGraph) (a : Text) (res res' : Resolved)
    : Type 0 where
  same_graph : res'.graph ≡ g
  resolved : IsResolved r g a res'
  kept : (b : Text) → IsResolved r g b res → IsResolved r g b res'

store-lookup :
    (a b : Text) (reqs : List ConflictRequirement) (v : Version) (res : Resolved)
    → text_eq a b ≡ false
    → Dict.lookup b (store a reqs v res).plugins ≡ Dict.lookup b res.plugins
unfolding store
store-lookup a b reqs v res h = lookup-insert a b (resolved_plugin a reqs v) res.plugins ∙ rw h refl

stored :
    (a : Text) (reqs : List ConflictRequirement) (v : Version) (res : Resolved)
    → (p : ResolvedPlugin) × (Dict.lookup a (store a reqs v res).plugins ≡ some p) × (p.version ≡ v)
unfolding store
stored a reqs v res =
    let p = resolved_plugin a reqs v in
    (p, lookup-insert a a p res.plugins ∙ rw (text_eq_refl a) refl, refl)

-- A plugin's entry stays, or is that of the plugin just resolved.
keep_resolved :
    (r : DependencyResolver) (g : DependencyGraph) (a b : Text) (v : Version) (res : Resolved)
    → IsResolved r g a (store a (requirements_on a g.edges) v res)
    → IsResolved r g b res
    → IsResolved r g b (store a (requirements_on a g.edges) v res)
keep_resolved r g a b v res new old = elim (Bool-cases (text_eq a b)) [
  | inl e ↦
      subst (λ c. IsResolved r g c (store a (requirements_on a g.edges) v res))
        ((text_eq_iff a b).0 e) new
  | inr e ↦ record {
    node = old.node;
    is_node = old.is_node;
    plugin = old.plugin;
    is_plugin = store-lookup a b (requirements_on a g.edges) v res e ∙ old.is_plugin;
    selection = old.selection;
  }
]

stored-IsStep :
    (r : DependencyResolver) (g : DependencyGraph) (a : Text) (res : Resolved) (node : PluginNode)
    (v : Version)
    → res.graph ≡ g
    → Dict.lookup a g.nodes ≡ some node
    → select_version r (candidates_of r a node) (requirements_on a g.edges) ≡ ok v
    → IsStep r g a res (store a (requirements_on a g.edges) v res)
stored-IsStep r g a res node v same n s =
    let reqs = requirements_on a g.edges in
    let (p, found, e) = stored a reqs v res in
    let new : IsResolved r g a (store a reqs v res) = record {
      node = node;
      is_node = n;
      plugin = p;
      is_plugin = found;
      selection =
          subst (IsSelection r (candidates_of r a node) reqs) (sym e)
            (select_version-IsSelection r (candidates_of r a node) reqs v s);
    } in
    record {
      same_graph = unfold store in same;
      resolved = new;
      kept = λ b old. keep_resolved r g a b v res new old;
    }

resolve_plugin-IsStep :
    (r : DependencyResolver) (g : DependencyGraph) (a : Text) (res res' : Resolved)
    → res.graph ≡ g
    → resolve_plugin r (collect_requirements g) a res ≡ ok res'
    → IsStep r g a res res'
unfolding resolve_plugin
resolve_plugin-IsStep r g a res res' same h = go (Dict.lookup a res.graph.nodes) refl
  where
    chosen :
        (node : PluginNode) (s : Result Version ResolutionError)
        → Dict.lookup a res.graph.nodes ≡ some node
        → select_version r
            (candidates_of r a node)
            (or_no_reqs (Dict.lookup a (collect_requirements g)))
          ≡ s
        → IsStep r g a res res'
    chosen node (err e) n k = ground (arith, h, n, k)
    chosen node (ok v) n k =
        let reqs = collect_requirements-lookup a g in
        subst (IsStep r g a res) (ap (λ q. store a q v res) (sym reqs) ∙ ground (arith, h, n, k)) (
          stored-IsStep r g a res node v same (ap (λ x. Dict.lookup a x.nodes) (sym same) ∙ n)
            (ap (select_version r (candidates_of r a node)) (sym reqs) ∙ k))

    go : (n : Option PluginNode) → Dict.lookup a res.graph.nodes ≡ n → IsStep r g a res res'
    go none n = ground (arith, h, n)
    go (some node) n =
        chosen node
          (select_version r (candidates_of r a node)
            (or_no_reqs (Dict.lookup a (collect_requirements g))))
          n refl

resolve_all-IsResolved :
    (r : DependencyResolver) (g : DependencyGraph) (order : List Text) (res res' : Resolved)
    → res.graph ≡ g
    → resolve_all r (collect_requirements g) order res ≡ ok res'
    → ((b : Text) → IsResolved r g b res → IsResolved r g b res')
      × All (λ a. IsResolved r g a res') order
unfolding resolve_all
resolve_all-IsResolved r g [] res res' same h =
    ((λ b old. subst (IsResolved r g b) (ground (arith, h)) old), tt)
resolve_all-IsResolved r g (a ∷ order) res res' same h =
    go (λ mid same' h'. resolve_all-IsResolved r g order mid res' same' h')
      (resolve_plugin r (collect_requirements g) a res) refl
  where
    go :
        ((mid : Resolved)
          → mid.graph ≡ g
          → resolve_all r (collect_requirements g) order mid ≡ ok res'
          → ((b : Text) → IsResolved r g b mid → IsResolved r g b res')
            × All (λ b. IsResolved r g b res') order)
        → (s : Result Resolved ResolutionError)
        → resolve_plugin r (collect_requirements g) a res ≡ s
        → ((b : Text) → IsResolved r g b res → IsResolved r g b res')
          × All (λ a. IsResolved r g a res') (a ∷ order)
    go rec (err e) k = ground (arith, h, k)
    go rec (ok mid) k =
        let step = resolve_plugin-IsStep r g a res mid same k in
        let (kept, done) = rec mid step.same_graph (ground (arith, h, k)) in
        ((λ b old. kept b (step.kept b old)), (kept a step.resolved, done))

pub resolve_steps :
    (r : DependencyResolver) (g : DependencyGraph) (res : Resolved)
    → resolve r g ≡ some (ok res)
    → (order : List Text) × (topological_sort g ≡ some (ok order))
      × (resolve_all r (collect_requirements g) order (unresolved g) ≡ ok res)
unfolding resolve
resolve_steps r g res h = go (detect_cycles g) refl
  where
    sorted :
        detect_cycles g ≡ some []
        → (t : Option (Result (List Text) GraphError)) → topological_sort g ≡ t
        → (order : List Text) × (topological_sort g ≡ some (ok order))
          × (resolve_all r (collect_requirements g) order (unresolved g) ≡ ok res)
    sorted e none k = ground (arith, h, e, k)
    sorted e (some (err x)) k = ground (arith, h, e, k)
    sorted e (some (ok order)) k = (order, k, ground (arith, h, e, k))

    go :
        (cycles : Option (List (List Text)))
        → detect_cycles g ≡ cycles
        → (order : List Text) × (topological_sort g ≡ some (ok order))
          × (resolve_all r (collect_requirements g) order (unresolved g) ≡ ok res)
    go none e = ground (arith, h, e)
    go (some []) e = sorted e (topological_sort g) refl
    go (some (c ∷ cs)) e = ground (arith, h, e)

-- When `resolve` succeeds on a well-formed graph, every plugin of it has a resolved version: the best
-- by the strategy of its candidates that meet the requirements of all edges to it.
pub resolve-IsResolved :
    (r : DependencyResolver) (g : DependencyGraph) (res : Resolved) (a : Text)
    → IsWellFormed g
    → resolve r g ≡ some (ok res)
    → contains a (Dict.keys g.nodes) ≡ true
    → IsResolved r g a res
resolve-IsResolved r g res a wf h i =
    let (order, sorted, all_resolved) = resolve_steps r g res h in
    let order_ok = topological_sort-IsActivationOrder g order wf sorted in
    contains-of_All (λ b. IsResolved r g b res) order a
      (resolve_all-IsResolved r g order (unresolved g) res refl all_resolved).1
      (contains-of_All (λ b. contains b order ≡ true) (Dict.keys g.nodes) a order_ok.all_plugins i)
