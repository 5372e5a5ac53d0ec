-- ===== src/Graph/Kahn.antt =====
-- The loops of Kahn's algorithm in `topological_sort` (abi/src/dependencies/graph.rs): no counter
-- falls below zero, the fuel suffices, and the plugins come out in an activation order.
use skylet.Prelude.{
  ℕ, zero, suc, ◌+◌, ◌≤◌, ◌≡◌, refl, sym, ◌∙◌, Bool, true, false, ◌&&◌, ◌||◌, Option, none, some,
  List, [], ◌∷◌, ◌++◌, arith, ◌==◌, if◌then◌else◌, Option-cases, inl, inr,
}
use mathlib.Core.List.{append-nil, append_assoc}
use skylet.Prelude.Lists.{length, length-append}
use skylet.Prelude.Texts.{Text, text_eq, text_eq_iff, contains}
use skylet.Prelude.Dict
use skylet.Prelude.Dict.{Dict, lookup-insert}
use skylet.Prelude.Sets.{
  Nodup, Nodup-snoc, Nodup-middle, contains-append, is_some, keys_iff, length-insert_known,
  length-le-of_keys,
}
use skylet.Graph.{DependencyEdge, DependencyGraph, dependents_of, relax, kahn}
use skylet.Graph.Building.{IsWellFormed}
use skylet.Graph.Order.{
  targets, InOrder, AllIn, AllIn-of_pending, InOrder-snoc, pending, pending-snoc_le,
  pending-snoc_lt, contains-targets,
}

-- Putting a value on a queue if a test holds.
pub contains-pushed :
    (b a : Text) (l queue : List Text) (c : Bool)
    → contains b (l ++ (if c then queue ++ a ∷ [] else queue))
      ≡ (contains b (l ++ queue) || (c && text_eq b a))
contains-pushed b a l queue true = ground (
  arith,
  contains-append b l (queue ++ a ∷ []),
  contains-append b queue (a ∷ []),
  contains-append b l queue,
)
contains-pushed b a l queue false = ground arith

Nodup-pushed :
    (a : Text) (l queue : List Text) (c : Bool)
    → Nodup (l ++ queue)
    → contains a (l ++ queue) ≡ false
    → Nodup (l ++ (if c then queue ++ a ∷ [] else queue))
Nodup-pushed a l queue true h k = rw (← append_assoc) (Nodup-snoc (l ++ queue) a h k)
Nodup-pushed a l queue false h k = h

module _ (es : List DependencyEdge) where
  -- Between two rounds: a counter is at least the number of dependencies that are still to come, and
  -- whatever was put on the queue has counter zero and is there once.
  pub record Waiting (done : List Text) (m : Dict ℕ) (queue : List Text) : Type 0 where
    pub degree : (a : Text) (d : ℕ) → Dict.lookup a m ≡ some d → pending done (targets a es) ≤ d
    pub zeros : (a : Text) → contains a (done ++ queue) ≡ true → Dict.lookup a m ≡ some 0
    pub once : Nodup (done ++ queue)

  -- Within a round that has taken `x`, with the dependents `left` to come.
  record Relaxing (done : List Text) (x : Text) (left : List Text) (m : Dict ℕ) (queue : List Text)
      : Type 0 where
    degree :
        (a : Text) (d : ℕ)
        → Dict.lookup a m ≡ some d
        → pending (if contains a left then done else done ++ x ∷ []) (targets a es) ≤ d
    zeros : (a : Text) → contains a ((done ++ x ∷ []) ++ queue) ≡ true → Dict.lookup a m ≡ some 0
    once : Nodup ((done ++ x ∷ []) ++ queue)
    depends : (a : Text) → contains a left ≡ true → contains x (targets a es) ≡ true

  record Relaxed (done : List Text) (x : Text) (m : Dict ℕ) (r : Option (Dict ℕ × List Text))
      : Type 0 where
    degrees : Dict ℕ
    queue : List Text
    returned : r ≡ some (degrees, queue)
    waiting : Waiting (done ++ x ∷ []) degrees queue
    size : length degrees ≡ length m
    keys : (a : Text) → is_some (Dict.lookup a degrees) ≡ is_some (Dict.lookup a m)

  -- The next dependent is no key: nothing changes.
  skip :
      {done left queue : List Text} {x a : Text} {m : Dict ℕ}
      → Dict.lookup a m ≡ none
      → Relaxing done x (a ∷ left) m queue
      → Relaxing done x left m queue
  skip {done} {left} {queue} {x} {a} {m} absent h = record {
    degree = λ b d e. ground (arith, h.degree b d, text_eq_iff b a, absent, e);
    zeros = h.zeros;
    once = h.once;
    depends = λ b i. ground (arith, h.depends b);
  }

  -- The counter of a dependent is not zero before its round is over.
  positive :
      {done left queue : List Text} {x a : Text} {m : Dict ℕ}
      → contains x done ≡ false
      → Relaxing done x (a ∷ left) m queue
      → ¬ (Dict.lookup a m ≡ some 0)
  positive {done} {left} {queue} {x} {a} {m} fresh h e = ground (
    arith,
    h.degree a 0 e,
    text_eq_iff a a,
    h.depends a,
    pending-snoc_lt done (targets a es) x fresh,
  )

  -- The counter of a dependent is taken down, and the dependent put on the queue at zero.
  count_down :
      {done left queue : List Text} {x a : Text} {m : Dict ℕ} {d : ℕ}
      → contains x done ≡ false
      → contains a left ≡ false
      → Dict.lookup a m ≡ some (suc d)
      → Relaxing done x (a ∷ left) m queue
      → Relaxing done x left (Dict.insert a d m) (if d == 0 then queue ++ a ∷ [] else queue)
  count_down {done} {left} {queue} {x} {a} {m} {d} fresh last e h = record {
    degree = λ b c f. ground (
      arith,
      lookup-insert a b d m,
      text_eq_iff a b,
      text_eq_iff b a,
      h.degree a (suc d) e,
      h.degree b c,
      pending-snoc_lt done (targets a es) x fresh (h.depends a (ground (arith, text_eq_iff a a))),
    );
    zeros = λ b i. ground (
      arith,
      contains-pushed b a (done ++ x ∷ []) queue (d == 0),
      lookup-insert a b d m,
      text_eq_iff a b,
      text_eq_iff b a,
      h.zeros b,
      e,
    );
    once = Nodup-pushed a (done ++ x ∷ []) queue (d == 0) h.once (ground (arith, h.zeros a));
    depends = λ b i. ground (arith, h.depends b);
  }

  relax-Relaxed :
      (done : List Text) (x : Text) (left : List Text) (m : Dict ℕ) (queue : List Text)
      → contains x done ≡ false
      → Nodup left
      → Relaxing done x left m queue
      → Relaxed done x m (relax left m queue)
  unfolding relax
  relax-Relaxed done x [] m queue fresh n h = record {
    degrees = m;
    queue = queue;
    returned = refl;
    waiting = record { degree = h.degree; zeros = h.zeros; once = h.once };
    size = refl;
    keys = λ a. refl;
  }
  relax-Relaxed done x (a ∷ left) m queue fresh n h = elim (Option-cases (Dict.lookup a m)) [
    | inl absent ↦ rw (absent, relax) (relax-Relaxed done x left m queue fresh n.1 (skip absent h))
    | inr (zero, e) ↦ absurd (positive fresh h e)
    | inr (suc d, e) ↦
        let r =
          relax-Relaxed done x left (Dict.insert a d m) (if d == 0 then queue ++ a ∷ [] else queue)
            fresh n.1 (count_down fresh n.0 e h) in
        rw (e, relax)
          (record {
            degrees = r.degrees;
            queue = r.queue;
            returned = r.returned;
            waiting = r.waiting;
            size = r.size ∙ length-insert_known a d m (ground (arith, keys_iff a m));
            keys = λ b. ground (arith, r.keys b, lookup-insert a b d m, text_eq_iff a b);
          })
  ]

  -- What the loop ends with: an activation order of plugins that have a counter.
  pub record Ordered (m : Dict ℕ) (r : Option (List Text)) : Type 0 where
    pub order : List Text
    pub returned : r ≡ some order
    pub in_order : InOrder es [] order
    pub once : Nodup order
    pub known : (a : Text) → contains a order ≡ true → is_some (Dict.lookup a m) ≡ true

module _ (g : DependencyGraph) (wf : IsWellFormed g) where
  -- One round of the loop.
  round :
      (m : Dict ℕ) (x : Text) (queue done : List Text)
      → Waiting g.edges done m (x ∷ queue)
      → contains x done ≡ false
      → Relaxed g.edges done x m (relax (dependents_of x g) m queue)
  round m x queue done w fresh =
      let e : done ++ x ∷ queue ≡ (done ++ x ∷ []) ++ queue = simp append_assoc in
      relax-Relaxed g.edges done x (dependents_of x g) m queue fresh (wf.indexed.distinct x)
        (record {
          degree =
              λ a d f. ground (arith, w.degree a d f, pending-snoc_le done (targets a g.edges) x);
          zeros = λ a i. w.zeros a (rw e i);
          once = rw e at (w.once);
          depends = λ a i. ground (arith, wf.indexed.index a x, contains-targets a x g.edges);
        })

  -- The plugin that is taken off the queue has all of its dependencies behind it.
  taken :
      (m : Dict ℕ) (x : Text) (queue done : List Text)
      → Waiting g.edges done m (x ∷ queue)
      → AllIn done (targets x g.edges)
  taken m x queue done w =
      let zero_degree =
        w.zeros x (ground (arith, contains-append x done (x ∷ queue), text_eq_iff x x)) in
      AllIn-of_pending done (targets x g.edges) (omega (arith, w.degree x 0 zero_degree))

  -- With fuel for the plugins that are left, the loop returns, and what it returns is an activation
  -- order of plugins with counters.
  pub kahn-Ordered :
      (fuel : ℕ) (m : Dict ℕ) (queue done : List Text)
      → Waiting g.edges done m queue
      → InOrder g.edges [] done
      → length m ≤ fuel + length done
      → Ordered g.edges m (kahn fuel g m queue done)
  unfolding kahn
  kahn-Ordered fuel m [] done w o enough = record {
    order = done;
    returned = refl;
    in_order = o;
    once = rw append-nil at (w.once);
    known = λ a i. ground (arith, w.zeros a, append-nil done);
  }
  kahn-Ordered zero m (x ∷ queue) done w o enough = absurd (
      omega (
        arith,
        length-append done (x ∷ queue),
        length-le-of_keys m (done ++ x ∷ queue) w.once
            (λ a i. ground (arith, w.zeros a i, keys_iff a m)),
      ))
  kahn-Ordered (suc fuel) m (x ∷ queue) done w o enough =
      let fresh = Nodup-middle done x queue w.once in
      let r = round m x queue done w fresh in
      let rest =
        kahn-Ordered fuel r.degrees r.queue (done ++ x ∷ []) r.waiting
          (InOrder-snoc g.edges [] done x o fresh (taken m x queue done w))
          (omega (arith, r.size, length-append done (x ∷ []))) in
      rw (r.returned, kahn)
        (record {
          order = rest.order;
          returned = rest.returned;
          in_order = rest.in_order;
          once = rest.once;
          known = λ a i. sym (r.keys a) ∙ rest.known a i;
        })
