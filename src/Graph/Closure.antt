-- ===== src/Graph/Closure.antt =====
-- The transitive dependencies and dependents of abi/src/dependencies/graph.rs hold exactly what can
-- be reached.
use skylet.Prelude.{
  ℕ, zero, suc, ◌+◌, ◌≤◌, ◌≡◌, ◌↔◌, refl, sym, ap, true, ◌||◌, Option, some, List, [], ◌∷◌, ◌++◌,
  arith, Bool-cases, inl, inr,
}
use mathlib.Core.List.{append-nil}
use skylet.Prelude.Lists.{length, length-append}
use skylet.Prelude.Texts.{Text, text_eq_iff, contains}
use skylet.Prelude.Dict
use skylet.Prelude.Dict.{Dict}
use skylet.Prelude.Sets.{contains-append}
use skylet.Graph.{
  PluginNode, DependencyGraph, or_empty, dependents_of, dependencies_of, deps_or_none, dep_names,
}
use skylet.Graph.Reaching.{
  unseen, unvisited, closure, closure_of, name_lists, transitive_dependencies,
  transitive_dependents, Reach, first, further, contains-unseen, length-unseen, unvisited-snoc,
}

module _ (next : Text → List Text) (id : Text) where
  -- All names on the queue or visited are reached, and whatever follows them, or `id`, is among them.
  record IsSearch (seen queue : List Text) : Type 0 where
    reached : (a : Text) → contains a (seen ++ queue) ≡ true → Reach next id a
    begun : (a : Text) → contains a (next id) ≡ true → contains a (seen ++ queue) ≡ true
    closed :
        (x a : Text)
        → contains x seen ≡ true
        → contains a (next x) ≡ true
        → contains a (seen ++ queue) ≡ true

  record IsClosure (r : Option (List Text)) : Type 0 where
    names : List Text
    returned : r ≡ some names
    exact : (a : Text) → (contains a names ≡ true) ↔ Reach next id a

  skip_old :
      (seen queue : List Text) (x : Text)
      → contains x seen ≡ true
      → IsSearch seen (x ∷ queue)
      → IsSearch seen queue
  skip_old seen queue x old h = record {
    reached = λ a i.
        h.reached a
          (ground (arith, i, contains-append a seen queue, contains-append a seen (x ∷ queue)));
    begun = λ a i. ground (
      arith,
      h.begun a i,
      old,
      contains-append a seen queue,
      contains-append a seen (x ∷ queue),
      text_eq_iff a x,
    );
    closed = λ y a j i. ground (
      arith,
      h.closed y a j i,
      old,
      contains-append a seen queue,
      contains-append a seen (x ∷ queue),
      text_eq_iff a x,
    );
  }

  members :
      (a : Text) (seen queue : List Text) (x : Text)
      → contains a ((seen ++ x ∷ []) ++ (queue ++ unseen (seen ++ x ∷ []) (next x)))
        ≡ (contains a (seen ++ x ∷ queue) || contains a (next x))
  members a seen queue x = ground (
    arith,
    contains-append a (seen ++ x ∷ []) (queue ++ unseen (seen ++ x ∷ []) (next x)),
    contains-append a seen (x ∷ []),
    contains-append a queue (unseen (seen ++ x ∷ []) (next x)),
    contains-append a seen (x ∷ queue),
    contains-unseen a (seen ++ x ∷ []) (next x),
  )

  visit_new :
      (seen queue : List Text) (x : Text)
      → IsSearch seen (x ∷ queue)
      → IsSearch (seen ++ x ∷ []) (queue ++ unseen (seen ++ x ∷ []) (next x))
  visit_new seen queue x h =
      let here : Reach next id x =
        h.reached x (ground (arith, contains-append x seen (x ∷ queue), text_eq_iff x x)) in
      record {
        reached = λ a i. elim (Bool-cases (contains a (seen ++ x ∷ queue))) [
          | inl before ↦ h.reached a before
          | inr fresh ↦ further here (ground (arith, i, members a seen queue x, fresh))
        ];
        begun = λ a i. ground (arith, h.begun a i, members a seen queue x);
        closed = λ y a j i. elim (Bool-cases (contains y seen)) [
          | inl before ↦ ground (arith, h.closed y a before i, members a seen queue x)
          | inr now ↦ ground (
            arith,
            i,
            now,
            j,
            contains-append y seen (x ∷ []),
            text_eq_iff y x,
            members a seen queue x,
          )
        ];
      }

  -- With an empty queue whatever is reached was visited.
  reached_in :
      (seen : List Text) {a : Text} → IsSearch seen [] → Reach next id a → contains a seen ≡ true
  reached_in seen {a} h (first i) = rw append-nil at (h.begun a i)
  reached_in seen {a} h (further {x} r i) = rw append-nil at (h.closed x a (reached_in seen h r) i)

  closure-IsClosure :
      (lists : Dict (List Text)) (fuel : ℕ) (seen queue : List Text)
      → ((x : Text) → length (next x) ≡ length (or_empty (Dict.lookup x lists)))
      → IsSearch seen queue
      → length queue + unvisited seen lists ≤ fuel
      → IsClosure (closure fuel next seen queue)
  unfolding closure
  closure-IsClosure lists fuel seen [] same h enough = record {
    names = seen;
    returned = refl;
    exact = λ a. ((λ i. h.reached a (rw append-nil i)), reached_in seen h);
  }
  closure-IsClosure lists zero seen (x ∷ queue) same h enough = absurd (omega arith)
  closure-IsClosure lists (suc fuel) seen (x ∷ queue) same h enough =
      elim (Bool-cases (contains x seen)) [
        | inl old ↦
            rw (old, closure)
              (closure-IsClosure lists fuel seen queue same (skip_old seen queue x old h)
                (omega arith))
        | inr new ↦
            rw (new, closure)
              (closure-IsClosure lists fuel (seen ++ x ∷ [])
                (queue ++ unseen (seen ++ x ∷ []) (next x)) same (visit_new seen queue x h)
                (omega (
                  arith,
                  enough,
                  same x,
                  unvisited-snoc seen x lists new,
                  length-append queue (unseen (seen ++ x ∷ []) (next x)),
                  length-unseen (seen ++ x ∷ []) (next x),
                )))
      ]

  closure_of-IsClosure :
      (lists : Dict (List Text))
      → ((x : Text) → length (next x) ≡ length (or_empty (Dict.lookup x lists)))
      → IsClosure (closure_of next lists id)
  closure_of-IsClosure lists same =
      closure-IsClosure lists (length (next id) + unvisited [] lists) [] (next id) same
        (record {
          reached = λ a i. first i;
          begun = λ a i. i;
          closed = λ x a j i. ground (arith, j);
        })
        (omega arith)

name_lists-lookup :
    (x : Text) (m : Dict PluginNode)
    → or_empty (Dict.lookup x (name_lists m)) ≡ dep_names (deps_or_none (Dict.lookup x m))
unfolding Dict.lookup
name_lists-lookup x [] = refl
name_lists-lookup x ((k, node) ∷ m) = ground (arith, name_lists-lookup x m)

-- The transitive dependencies of a plugin are found, and are exactly the names that are reached from
-- it along dependencies.
pub transitive_dependencies-Reach :
    (id : Text) (g : DependencyGraph)
    → (names : List Text) × (transitive_dependencies id g ≡ some names)
      × ((a : Text) → (contains a names ≡ true) ↔ Reach (λ x. dep_names (dependencies_of x g)) id a)
unfolding transitive_dependencies
transitive_dependencies-Reach id g =
    let r =
      closure_of-IsClosure (λ x. dep_names (dependencies_of x g)) id (name_lists g.nodes)
        (λ x. unfold dependencies_of in ap length (sym (name_lists-lookup x g.nodes))) in
    (r.names, r.returned, r.exact)

-- The transitive dependents of a plugin are found, and are exactly the names that are reached from it
-- along the reverse index.
pub transitive_dependents-Reach :
    (id : Text) (g : DependencyGraph)
    → (names : List Text) × (transitive_dependents id g ≡ some names)
      × ((a : Text) → (contains a names ≡ true) ↔ Reach (λ x. dependents_of x g) id a)
unfolding transitive_dependents
transitive_dependents-Reach id g =
    let r =
      closure_of-IsClosure (λ x. dependents_of x g) id g.dependents
        (λ x. unfold dependents_of in refl) in
    (r.names, r.returned, r.exact)
