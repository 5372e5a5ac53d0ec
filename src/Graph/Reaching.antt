-- ===== src/Graph/Reaching.antt =====
-- `transitive_dependencies` and `transitive_dependents` of abi/src/dependencies/graph.rs, what it means
-- to be reached, and what bounds the rounds of their loop.
use skylet.Prelude.{
  ℕ, zero, suc, ◌+◌, ◌≤◌, ◌≡◌, refl, true, false, ◌||◌, Option, none, some, List, [], ◌∷◌, ◌++◌,
  arith, if◌then◌else◌,
}
use skylet.Prelude.Lists.{length}
use skylet.Prelude.Texts.{Text, text_eq_iff, contains}
use skylet.Prelude.Dict
use skylet.Prelude.Dict.{Dict}
use skylet.Prelude.Sets.{contains-append}
use skylet.Graph.{PluginNode, DependencyGraph, or_empty, dependents_of, dependencies_of, dep_names}

-- The names to visit behind a new one: those that were not visited yet.
abbrev pub unseen : List Text → List Text → List Text
unseen seen [] = []
unseen seen (y ∷ ys) = let rest = unseen seen ys in if contains y seen then rest else y ∷ rest

-- The loop over the queue `to_visit`, with the names that `next` gives for a name.
unfoldable pub closure : ℕ → (Text → List Text) → List Text → List Text → Option (List Text)
closure fuel next seen [] = some seen
closure zero next seen (x ∷ queue) = none
closure (suc fuel) next seen (x ∷ queue) =
    let old = closure fuel next seen queue in
    let new = closure fuel next (seen ++ x ∷ []) (queue ++ unseen (seen ++ x ∷ []) (next x)) in
    if contains x seen then old else new

-- The number of names in the lists whose keys are not visited yet.
abbrev pub unvisited : List Text → Dict (List Text) → ℕ
unvisited seen [] = 0
unvisited seen ((k, l) ∷ m) =
    let rest = unvisited seen m in if contains k seen then rest else length l + rest

-- Each list is put on the queue once, so the names in them bound the rounds.
abbrev pub closure_of : (Text → List Text) → Dict (List Text) → Text → Option (List Text)
closure_of next lists id = closure (length (next id) + unvisited [] lists) next [] (next id)

abbrev pub name_lists : Dict PluginNode → Dict (List Text)
name_lists [] = []
name_lists ((id, node) ∷ m) = (id, dep_names node.dependencies) ∷ name_lists m

unfoldable pub transitive_dependencies : Text → DependencyGraph → Option (List Text)
unfolding closure
transitive_dependencies id g =
    closure_of (λ x. dep_names (dependencies_of x g)) (name_lists g.nodes) id

unfoldable pub transitive_dependents : Text → DependencyGraph → Option (List Text)
unfolding closure
transitive_dependents id g = closure_of (λ x. dependents_of x g) g.dependents id

-- `y` is reached from `id` in at least one step.
pub data Reach (next : Text → List Text) (id : Text) : Text → Type 0 where
  first : {y : Text} → contains y (next id) ≡ true → Reach next id y
  further : {x y : Text} → Reach next id x → contains y (next x) ≡ true → Reach next id y

pub contains-unseen :
    (a : Text) (seen ys : List Text)
    → (contains a seen || contains a (unseen seen ys)) ≡ (contains a seen || contains a ys)
contains-unseen a seen [] = refl
contains-unseen a seen (y ∷ ys) = ground (arith, contains-unseen a seen ys, text_eq_iff a y)

pub length-unseen : (seen ys : List Text) → length (unseen seen ys) ≤ length ys
length-unseen seen [] = omega arith
length-unseen seen (y ∷ ys) = ground (arith, length-unseen seen ys)

unvisited-snoc_le :
    (seen : List Text) (x : Text) (m : Dict (List Text))
    → unvisited (seen ++ x ∷ []) m ≤ unvisited seen m
unvisited-snoc_le seen x [] = omega arith
unvisited-snoc_le seen x ((k, l) ∷ m) =
    ground (arith, unvisited-snoc_le seen x m, contains-append k seen (x ∷ []))

-- Visiting a new name takes its list off what is left.
pub unvisited-snoc :
    (seen : List Text) (x : Text) (m : Dict (List Text))
    → contains x seen ≡ false
    → length (or_empty (Dict.lookup x m)) + unvisited (seen ++ x ∷ []) m ≤ unvisited seen m
unfolding Dict.lookup
unvisited-snoc seen x [] h = omega arith
unvisited-snoc seen x ((k, l) ∷ m) h = ground (
  arith,
  h,
  unvisited-snoc seen x m h,
  unvisited-snoc_le seen x m,
  contains-append k seen (x ∷ []),
  text_eq_iff k x,
  text_eq_iff x k,
)
