-- ===== src/Graph/Sorting/Degrees.antt =====
-- The counters and the queue with which the sort of abi/src/dependencies/graph.rs begins.
use skylet.Prelude.{
  ℕ, ◌+◌, ◌≡◌, refl, sym, ap, ◌∙◌, true, some, List, [], ◌∷◌, arith, ◌==◌, Bool-cases, inl, inr,
}
use skylet.Prelude.Lists.{length}
use skylet.Prelude.Texts.{Text, text_eq_iff, contains}
use skylet.Prelude.Dict
use skylet.Prelude.Dict.{Dict, lookup-insert}
use skylet.Prelude.Sets.{
  Nodup, length-keys, is_some, keys_iff, keys-insert, Nodup-keys-insert, length-insert_known,
}
use skylet.Graph.{
  DependencyEdge, DependencyGraph, or_zero, zero_degrees, count_edges, in_degrees, ready,
  sort_unchecked,
}
use skylet.Graph.Building.{has_edge, IsWellFormed}
use skylet.Graph.Order.{targets, pending-nil}
use skylet.Graph.Kahn.{Waiting, Ordered, kahn-Ordered}

-- Counting adds to each counter the number of edges that start there.
count_edges-lookup :
    (a : Text) (es : List DependencyEdge) (m : Dict ℕ)
    → or_zero (Dict.lookup a (count_edges es m)) ≡ or_zero (Dict.lookup a m) + length (targets a es)
unfolding count_edges
count_edges-lookup a [] m = omega arith
count_edges-lookup a (e ∷ es) m =
    let n = or_zero (Dict.lookup e.from m) + 1 in
    ground (
      arith,
      count_edges-lookup a es (Dict.insert e.from n m),
      lookup-insert e.from a n m,
      text_eq_iff e.from a,
    )

-- Where every edge starts at a key, counting keeps the keys.
record SameKeys (m k : Dict ℕ) : Type 0 where
  size : length k ≡ length m
  known : (a : Text) → contains a (Dict.keys k) ≡ contains a (Dict.keys m)
  once : Nodup (Dict.keys k)

count_edges-SameKeys :
    (es : List DependencyEdge) (m : Dict ℕ)
    → ((a b : Text) → has_edge a b es ≡ true → contains a (Dict.keys m) ≡ true)
    → Nodup (Dict.keys m)
    → SameKeys m (count_edges es m)
unfolding count_edges
count_edges-SameKeys [] m h n = record { size = refl; known = λ a. refl; once = n }
count_edges-SameKeys (e ∷ es) m h n =
    let v = or_zero (Dict.lookup e.from m) + 1 in
    let known = h e.from e.to (ground (arith, text_eq_iff e.from e.from, text_eq_iff e.to e.to)) in
    let same : (a : Text)
        → contains a (Dict.keys (Dict.insert e.from v m)) ≡ contains a (Dict.keys m) =
      λ a. ground (arith, keys-insert a e.from v m, text_eq_iff a e.from, known) in
    let r =
      count_edges-SameKeys es (Dict.insert e.from v m) (λ a b i. ground (arith, same a, h a b))
        (Nodup-keys-insert e.from v m n) in
    record {
      size = r.size ∙ length-insert_known e.from v m known;
      known = λ a. r.known a ∙ same a;
      once = r.once;
    }

pub keys-zero_degrees : (ids : List Text) → Dict.keys (zero_degrees ids) ≡ ids
keys-zero_degrees [] = refl
keys-zero_degrees (id ∷ ids) = ap (λ l. id ∷ l) (keys-zero_degrees ids)

pub length-zero_degrees : (ids : List Text) → length (zero_degrees ids) ≡ length ids
length-zero_degrees [] = refl
length-zero_degrees (id ∷ ids) = omega (arith, length-zero_degrees ids)

lookup-zero_degrees : (a : Text) (ids : List Text) → or_zero (Dict.lookup a (zero_degrees ids)) ≡ 0
unfolding Dict.lookup
lookup-zero_degrees a [] = refl
lookup-zero_degrees a (id ∷ ids) = ground (arith, lookup-zero_degrees a ids)

-- The queue begins with keys whose counter is zero, each once.
contains-ready_key :
    (a : Text) (m : Dict ℕ) → contains a (ready m) ≡ true → contains a (Dict.keys m) ≡ true
unfolding ready
contains-ready_key a [] h = ground arith
contains-ready_key a ((id, d) ∷ m) h = ground (arith, contains-ready_key a m)

lookup-ready :
    (a : Text) (m : Dict ℕ)
    → Nodup (Dict.keys m)
    → contains a (ready m) ≡ true
    → Dict.lookup a m ≡ some 0
unfolding ready Dict.lookup
lookup-ready a [] n h = ground arith
lookup-ready a ((id, d) ∷ m) n h =
    ground
      (arith, lookup-ready a m n.1, contains-ready_key a m, text_eq_iff a id, text_eq_iff id a, n.0)

pub ready-of_lookup :
    (a : Text) (m : Dict ℕ) → Dict.lookup a m ≡ some 0 → contains a (ready m) ≡ true
unfolding ready Dict.lookup
ready-of_lookup a [] h = ground arith
ready-of_lookup a ((id, d) ∷ m) h =
    ground (arith, ready-of_lookup a m, text_eq_iff a id, text_eq_iff id a)

-- Each plugin's counter begins with the number of edges that start there.
pub in_degrees-lookup :
    (a : Text) (g : DependencyGraph)
    → or_zero (Dict.lookup a (in_degrees g)) ≡ length (targets a g.edges)
unfolding in_degrees
in_degrees-lookup a g =
    count_edges-lookup a g.edges (zero_degrees (Dict.keys g.nodes))
    ∙ omega (arith, lookup-zero_degrees a (Dict.keys g.nodes))

Nodup-ready : (m : Dict ℕ) → Nodup (Dict.keys m) → Nodup (ready m)
unfolding ready
Nodup-ready [] n = tt
Nodup-ready ((id, d) ∷ m) n = elim (Bool-cases (d == 0)) [
  | inl e ↦ rw (e, ready) (ground (arith, contains-ready_key id m, n.0), Nodup-ready m n.1)
  | inr e ↦ rw (e, ready) (Nodup-ready m n.1)
]

module _ (g : DependencyGraph) (wf : IsWellFormed g) where
  start : Dict ℕ
  start = zero_degrees (Dict.keys g.nodes)

  same_keys : SameKeys start (in_degrees g)
  unfolding in_degrees start
  same_keys =
      count_edges-SameKeys g.edges (zero_degrees (Dict.keys g.nodes))
        (λ a b i. rw keys-zero_degrees (wf.sources a b i)) (rw keys-zero_degrees wf.once)

  pub length-in_degrees : length (in_degrees g) ≡ length g.nodes
  unfolding start
  length-in_degrees = same_keys.size ∙ length-zero_degrees (Dict.keys g.nodes) ∙ length-keys g.nodes

  pub keys-in_degrees :
      (a : Text) → is_some (Dict.lookup a (in_degrees g)) ≡ contains a (Dict.keys g.nodes)
  unfolding start
  keys-in_degrees a =
      sym (keys_iff a (in_degrees g))
      ∙ same_keys.known a
      ∙ ap (contains a) (keys-zero_degrees (Dict.keys g.nodes))

  Waiting-at_start : Waiting g.edges [] (in_degrees g) (ready (in_degrees g))
  Waiting-at_start = record {
    degree = λ a d e.
        unfold in_degrees in
        ground (
          arith,
          e,
          count_edges-lookup a g.edges (zero_degrees (Dict.keys g.nodes)),
          lookup-zero_degrees a (Dict.keys g.nodes),
          pending-nil (targets a g.edges),
        );
    zeros = λ a i. lookup-ready a (in_degrees g) same_keys.once i;
    once = Nodup-ready (in_degrees g) same_keys.once;
  }

  -- The sort returns an activation order of plugins of the graph.
  pub sort_unchecked-Ordered : Ordered g.edges (in_degrees g) (sort_unchecked g)
  unfolding sort_unchecked
  sort_unchecked-Ordered =
      kahn-Ordered g wf (length (in_degrees g)) (in_degrees g) (ready (in_degrees g)) []
        Waiting-at_start tt (omega arith)
