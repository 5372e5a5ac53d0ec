-- ===== src/Graph/Sorting.antt =====
-- What `topological_sort` of abi/src/dependencies/graph.rs returns, on graphs that `add_plugin` built.
pub mod Degrees
use skylet.Prelude.{
  ℕ, ◌≡◌, ◌≢◌, refl, sym, ap, ◌∙◌, Bool, true, false, not, Option, none, some, List, [], ◌∷◌, ◌++◌,
  arith, ◌==◌, if◌then◌else◌, Bool-cases, inl, inr, Result, ok, err,
}
use mathlib.Core.List.{reverse, reverse-reverse}
use skylet.Prelude.Lists.{length, All}
use skylet.Prelude.Texts.{Text, contains}
use skylet.Prelude.Dict
use skylet.Prelude.Sets.{Nodup, covers, All-contains, contains-of_All}
use skylet.Graph.{
  DependencyGraph, GraphError, and_then, dep_names, dependencies_of, detect_cycles, sort_unchecked,
  sorted_or_error, topological_sort, deactivation_order, cyclic_dependency, joined,
}
use skylet.Graph.Building.{has_edge, IsWellFormed}
use skylet.Prelude.{Option-cases}
use skylet.Graph.Order.{InOrder, target_seen}
use skylet.Graph.Cycles.{detect_cycles-returns}
use skylet.Graph.Sorting.Degrees.{length-in_degrees, keys-in_degrees, sort_unchecked-Ordered}

-- On a well-formed graph the sort always comes to a result: its loops end within their fuel, and no
-- counter is taken below zero.
pub topological_sort-returns :
    (g : DependencyGraph)
    → IsWellFormed g
    → (r : Result (List Text) GraphError) × (topological_sort g ≡ some r)
unfolding topological_sort
topological_sort-returns g wf =
    let (cycles, e) = detect_cycles-returns g in
    let s = sort_unchecked-Ordered g wf in go cycles e s.order s.returned
  where
    go :
        (cycles : List (List Text))
        → detect_cycles g ≡ some cycles
        → (order : List Text) → sort_unchecked g ≡ some order
        → (r : Result (List Text) GraphError) × (topological_sort g ≡ some r)
    go [] e order f = (sorted_or_error g order, rw (e, topological_sort) (rw f))
    go (c ∷ cs) e order f = (err (cyclic_dependency (joined (c ∷ cs))), rw (e, topological_sort))

-- An activation order of the plugins of a graph: each of them once, and each behind all plugins that
-- it depends on.
pub record IsActivationOrder (g : DependencyGraph) (order : List Text) : Type 0 where
  pub once : Nodup order
  pub all_plugins : All (λ a. contains a order ≡ true) (Dict.keys g.nodes)
  pub only_plugins : All (λ a. contains a (Dict.keys g.nodes) ≡ true) order
  pub behind : InOrder g.edges [] order

sorted_result :
    (g : DependencyGraph) (order : List Text)
    → topological_sort g ≡ some (ok order)
    → (sort_unchecked g ≡ some order) × (length order ≡ length g.nodes)
unfolding topological_sort
sorted_result g order h = ground arith

-- Whenever the sort of a well-formed graph succeeds, its result is an activation order.
pub topological_sort-IsActivationOrder :
    (g : DependencyGraph) (order : List Text)
    → IsWellFormed g
    → topological_sort g ≡ some (ok order)
    → IsActivationOrder g order
topological_sort-IsActivationOrder g order wf h =
    let s = sort_unchecked-Ordered g wf in
    let (returned, size) = sorted_result g order h in
    let same : s.order ≡ order = ground (arith, s.returned, returned) in
    let once : Nodup order = rw same at (s.once) in
    let known : (a : Text) → contains a order ≡ true → contains a (Dict.keys g.nodes) ≡ true =
      λ a i. sym (keys-in_degrees g wf a) ∙ s.known a (rw same i) in
    record {
      once = once;
      all_plugins =
          All-contains (λ a. contains a order ≡ true) (Dict.keys g.nodes)
            (λ a i. covers g.nodes order a once known size i);
      only_plugins = All-contains (λ a. contains a (Dict.keys g.nodes) ≡ true) order known;
      behind = rw same at (s.in_order);
    }

-- What a sorted graph depends on is in it: when a plugin names a dependency, optional or not, that is
-- no plugin of the graph, the sort never succeeds.
pub topological_sort-missing_dependency :
    (g : DependencyGraph) (order : List Text) (a b : Text)
    → IsWellFormed g
    → contains b (dep_names (dependencies_of a g)) ≡ true
    → contains b (Dict.keys g.nodes) ≡ false
    → topological_sort g ≢ some (ok order)
topological_sort-missing_dependency g order a b wf d m h =
    let r = topological_sort-IsActivationOrder g order wf h in
    let e = wf.targets a b d in
    let a_in =
      contains-of_All (λ t. contains t order ≡ true) (Dict.keys g.nodes) a r.all_plugins
        (wf.sources a b e) in
    let b_in = target_seen g.edges [] order a b r.behind a_in e in
    let b_known =
      contains-of_All (λ t. contains t (Dict.keys g.nodes) ≡ true) order b r.only_plugins b_in in
    ground arith

-- `deactivation_order` gives the reverse of an activation order, whenever it succeeds.
pub deactivation_order-reverses :
    (g : DependencyGraph) (order : List Text)
    → IsWellFormed g
    → deactivation_order g ≡ some (ok order)
    → IsActivationOrder g (reverse order)
unfolding deactivation_order
deactivation_order-reverses g order wf h = go (topological_sort g) refl
  where
    go :
        (r : Option (Result (List Text) GraphError))
        → topological_sort g ≡ r
        → IsActivationOrder g (reverse order)
    go none e = ground (arith, e)
    go (some (err x)) e = ground (arith, e)
    go (some (ok found)) e =
        let same : reverse found ≡ order = ground (arith, e) in
        topological_sort-IsActivationOrder g (reverse order) wf
          (e ∙ ap (λ l. some (ok l)) (sym (reverse-reverse found) ∙ ap reverse same))
