-- ===== src/Graph/Completeness.antt =====
-- The sort of abi/src/dependencies/graph.rs succeeds on every graph without cycles whose dependencies
-- are all there.
use skylet.Prelude.{
  ℕ, zero, suc, ◌<◌, ◌≡◌, refl, sym, ◌∙◌, true, false, some, List, [], ◌∷◌, arith, Option-cases,
  Bool-cases, inl, inr, ok,
}
use mathlib.Core.List.{append-nil}
use skylet.Prelude.Lists.{length}
use skylet.Prelude.Texts.{Text, text_eq_iff, contains}
use skylet.Prelude.Dict
use skylet.Prelude.Dict.{Dict}
use skylet.Prelude.Sets.{Nodup, is_some, length-keys, length-le-of_keys}
use skylet.Graph.{
  DependencyGraph, in_degrees, ready, sort_unchecked, topological_sort, zero_degrees,
}
use skylet.Graph.Building.{has_edge, IsWellFormed}
use skylet.Graph.Order.{targets, pending, pending-nil, contains-targets}
use skylet.Graph.Acyclic.{IsRanked, detect_cycles-none}
use skylet.Graph.Exact.{Exact, kahn-Emptied}
use skylet.Graph.Sorting.{IsActivationOrder, topological_sort-IsActivationOrder}
use skylet.Graph.Sorting.Degrees.{
  keys-in_degrees, sort_unchecked-Ordered, in_degrees-lookup, ready-of_lookup, keys-zero_degrees,
  length-zero_degrees,
}

-- A graph that can be sorted: it has no cycle, each dependency is a plugin of the graph, and no
-- plugin names a dependency twice.
pub record IsSortable (rank : Text → ℕ) (g : DependencyGraph) : Type 0 where
  pub ranked : IsRanked rank g
  pub present : (a b : Text) → has_edge a b g.edges ≡ true → contains b (Dict.keys g.nodes) ≡ true
  pub distinct : (a : Text) → Nodup (targets a g.edges)

-- A name that is still pending.
pending-some :
    (done ts : List Text)
    → 0 < pending done ts
    → (t : Text) × (contains t ts ≡ true) × (contains t done ≡ false)
pending-some done [] h = absurd (omega arith)
pending-some done (t ∷ ts) h = elim (Bool-cases (contains t done)) [
  | inr new ↦ (t, ground (arith, text_eq_iff t t), new)
  | inl old ↦
      let (u, i, n) = pending-some done ts (ground (arith, h, old)) in (u, ground (arith, i), n)
]

module _ (rank : Text → ℕ) (g : DependencyGraph) (wf : IsWellFormed g) (s : IsSortable rank g) where
  Exact-at_start : Exact g.edges [] (in_degrees g) (ready (in_degrees g))
  Exact-at_start = record {
    degree = λ a d e. ground (arith, e, in_degrees-lookup a g, pending-nil (targets a g.edges));
    queued = λ a e. ready-of_lookup a (in_degrees g) e;
  }

  -- With exact counters and an empty queue, every plugin has come out.
  all_out :
      (order : List Text) (m : Dict ℕ)
      → Exact g.edges order m []
      → ((a : Text) → is_some (Dict.lookup a m) ≡ contains a (Dict.keys g.nodes))
      → (n : ℕ) (a : Text) → rank a < n
      → contains a (Dict.keys g.nodes) ≡ true
      → contains a order ≡ true
  all_out order m h k zero a r i = absurd (omega arith)
  all_out order m h k (suc n) a r i = elim (Bool-cases (contains a order)) [
    | inl out ↦ out
    | inr left ↦ elim (Option-cases (Dict.lookup a m)) [
      | inl absent ↦ ground (arith, k a, absent, i)
      | inr (d, found) ↦
          let positive : 0 < d = ground (arith, found, h.queued a, append-nil order, left) in
          let (t, is_target, missing) =
            pending-some order (targets a g.edges) (omega (arith, positive, h.degree a d found)) in
          let edge = sym (contains-targets a t g.edges) ∙ is_target in
          let there =
            all_out order m h k n t (omega (arith, r, s.ranked.falls a t edge))
              (s.present a t edge) in
          ground (arith, there, missing)
    ]
  ]

  -- The sort returns a list of all plugins.
  returned : (order : List Text) × (sort_unchecked g ≡ some order) × (length order ≡ length g.nodes)
  returned =
      let o = sort_unchecked-Ordered g wf in
      let e =
        kahn-Emptied g.edges s.distinct g (length (in_degrees g)) (in_degrees g)
          (ready (in_degrees g)) [] o.order wf refl Exact-at_start
          (unfold sort_unchecked in o.returned) in
      let keys : (a : Text) → is_some (Dict.lookup a e.degrees) ≡ contains a (Dict.keys g.nodes) =
        λ a. e.keys a ∙ keys-in_degrees g wf a in
      let out : (a : Text) → contains a (Dict.keys g.nodes) ≡ true → contains a o.order ≡ true =
        λ a i. all_out o.order e.degrees e.exact keys (suc (rank a)) a (omega arith) i in
      (
        o.order,
        o.returned,
        omega (
          arith,
          length-le-of_keys g.nodes o.order o.once
              (λ a i. sym (keys-in_degrees g wf a) ∙ o.known a i),
          length-le-of_keys (zero_degrees o.order) (Dict.keys g.nodes) wf.once
              (λ a i. rw keys-zero_degrees (out a i)),
          length-zero_degrees o.order,
          length-keys g.nodes,
        ),
      )

-- The sort of a well-formed graph succeeds, with an activation order, if the graph has no cycle, each
-- dependency is a plugin of the graph, and no edge is there twice: no plugin names a dependency twice or
-- was added twice with it.
pub topological_sort-succeeds :
    (rank : Text → ℕ) (g : DependencyGraph)
    → IsWellFormed g
    → IsSortable rank g
    → (order : List Text) × (topological_sort g ≡ some (ok order)) × IsActivationOrder g order
topological_sort-succeeds rank g wf s =
    let (order, sorted, size) = returned rank g wf s in
    let e : topological_sort g ≡ some (ok order) =
      unfold topological_sort in
      ground (arith, detect_cycles-none rank g wf s.ranked, sorted, size) in
    (order, e, topological_sort-IsActivationOrder g order wf e)
