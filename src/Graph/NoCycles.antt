-- ===== src/Graph/NoCycles.antt =====
-- What it means that the cycle detection of abi/src/dependencies/graph.rs reports no cycle: no plugin
-- is reached from itself along dependencies.
use skylet.Prelude.{
  ℕ, suc, ◌<◌, ◌≤◌, ◌≡◌, refl, sym, ap, ◌∙◌, true, false, not, some, List, [], ◌∷◌, arith,
  if◌then◌else◌, Bool-cases, Option-cases, inl, inr,
}
use mathlib.Core.Path.{subst}
use skylet.Prelude.Lists.{length}
use skylet.Prelude.Texts.{Text, text_eq, text_eq_iff, contains}
use skylet.Prelude.Dict
use skylet.Prelude.Sets.{contains-of_All, keys_iff}
use skylet.Graph.{
  DependencyGraph, Search, detect_cycles_dfs, search_from, search_fuel, detect_cycles, dep_names,
  dependencies_of,
}
use skylet.Graph.Finishing.{needs, Chain, Finishing}
use skylet.Graph.Visits.{detect_cycles_dfs-IsVisit}
use skylet.Graph.Order.{AllIn}
use skylet.Graph.Reaching.{Reach, first, further}

-- The place of a finished plugin, counted from the first one that finished.
abbrev place : Text → List Text → ℕ
place a [] = 0
place a (x ∷ l) = if text_eq x a then suc (length l) else place a l

place-le : (a : Text) (l : List Text) → place a l ≤ length l
place-le a [] = omega arith
place-le a (x ∷ l) = ground (arith, place-le a l)

record IsBelow (l : List Text) (a b : Text) : Type 0 where
  below : place b l < place a l
  there : contains b l ≡ true

-- A dependency is finished, and before its dependent.
Chain-falls :
    (g : DependencyGraph) (l : List Text) (a b : Text)
    → Chain g l
    → contains a l ≡ true
    → contains b (needs g a) ≡ true
    → IsBelow l a b
Chain-falls g [] a b c i j = ground arith
Chain-falls g (x ∷ l) a b c i j = elim (Bool-cases (text_eq a x)) [
  | inl e ↦
      let there : contains b l ≡ true =
        contains-of_All (λ t. contains t l ≡ true) (needs g x) b c.1
          (ap (λ t. contains b (needs g t)) (sym ((text_eq_iff a x).0 e)) ∙ j) in
      record {
        below =
            ground (
              arith,
              e,
              there,
              c.0,
              place-le b l,
              text_eq_iff a x,
              text_eq_iff x a,
              text_eq_iff x b,
            );
        there = ground (arith, there);
      }
  | inr e ↦
      let rest = Chain-falls g l a b c.2 (ground (arith, i, e)) j in
      record {
        below = ground (
          arith,
          rest.below,
          rest.there,
          c.0,
          i,
          e,
          text_eq_iff a x,
          text_eq_iff x a,
          text_eq_iff x b,
        );
        there = ground (arith, rest.there);
      }
]

Reach-IsBelow :
    (g : DependencyGraph) (l : List Text) (a : Text) {b : Text}
    → Chain g l
    → contains a l ≡ true
    → Reach (needs g) a b
    → IsBelow l a b
Reach-IsBelow g l a {b} c i (first j) = Chain-falls g l a b c i j
Reach-IsBelow g l a {b} c i (further {x} r j) =
    let before = Reach-IsBelow g l a c i r in
    let step = Chain-falls g l x b c before.there j in
    record { below = omega (arith, before.below, step.below); there = step.there }

-- Between the searches the stack is empty.
abbrev IsIdle : Search → Type 0
IsIdle s = (a : Text) → contains a s.rec_stack ≡ false

-- The search from one plugin, and the searches from several: they finish them all.
record Searched (g : DependencyGraph) (ids : List Text) (s s' : Search) : Type 0 where
  none_before : s.cycles ≡ []
  progress :
      (l : List Text)
      → IsIdle s
      → Finishing g l s
      → (more : List Text) × Finishing g more s'
        × IsIdle s'
        × ((a : Text) → contains a l ≡ true → contains a more ≡ true)
        × AllIn more ids

root-Searched :
    (fuel : ℕ) (g : DependencyGraph) (id : Text) (s s' : Search)
    → (if not (contains id s.visited) then detect_cycles_dfs fuel g id s else some s) ≡ some s'
    → s'.cycles ≡ []
    → Searched g (id ∷ []) s s'
root-Searched fuel g id s s' e c = elim (Bool-cases (contains id s.visited)) [
  | inl old ↦
      let same : s ≡ s' = ground (arith, e, old) in
      subst (Searched g (id ∷ []) s) same (record {
        none_before = ap (λ (t : Search). t.cycles) same ∙ c;
        progress =
            λ l idle f. (l, f, idle, (λ a i. i), (f.finished id ∙ rw (old, idle id) refl, tt));
      })
  | inr new ↦
      let v = detect_cycles_dfs-IsVisit g fuel id s s' new (rw new at e) c in
      record {
        none_before = v.none_before;
        progress = λ l idle f.
            let (p, i) = v.progress l f in
            (p.more, p.finishing, (λ a. p.same_stack a ∙ idle a), p.keeps, (i, tt));
      }
]

search_from-Searched :
    (fuel : ℕ) (g : DependencyGraph) (ids : List Text) (s s' : Search)
    → search_from fuel g ids s ≡ some s'
    → s'.cycles ≡ []
    → Searched g ids s s'
unfolding search_from
search_from-Searched fuel g [] s s' e c =
    let same : s ≡ s' = ground (arith, e) in
    subst (Searched g [] s) same (record {
      none_before = ap (λ (t : Search). t.cycles) same ∙ c;
      progress = λ l idle f. (l, f, idle, (λ a i. i), tt);
    })
search_from-Searched fuel g (id ∷ ids) s s' e c =
    elim (Option-cases
      (if not (contains id s.visited) then detect_cycles_dfs fuel g id s else some s)) [
        | inl stuck ↦ ground (arith, e, stuck)
        | inr (mid, found) ↦
            let rest = search_from-Searched fuel g ids mid s' (ground (arith, e, found)) c in
            let one = root-Searched fuel g id s mid found rest.none_before in
            record {
              none_before = one.none_before;
              progress = λ l idle f.
                  let r = one.progress l idle f in
                  let q = rest.progress r.0 r.2 r.1 in
                  (q.0, q.1, q.2, (λ a i. q.3 a (r.3 a i)), (q.3 id r.4.0, q.4));
            }
      ]

abbrev start : Search
start = record { visited = []; rec_stack = []; path = []; cycles = [] }

-- When no cycle is reported, all plugins of the graph make up a chain.
all_finished :
    (g : DependencyGraph)
    → detect_cycles g ≡ some []
    → (l : List Text) × Chain g l × AllIn l (Dict.keys g.nodes)
unfolding detect_cycles
all_finished g h = elim (Option-cases (search_from (search_fuel g) g (Dict.keys g.nodes) start)) [
  | inl stuck ↦ ground (arith, h, stuck)
  | inr (s, found) ↦
      let r =
        search_from-Searched (search_fuel g) g (Dict.keys g.nodes) start s found
          (ground (arith, h, found)) in
      let q =
        r.progress [] (λ a. refl)
          (record { chain = tt; finished = λ a. refl; on_path = λ a i. i; seen = λ a i. i }) in
      (q.0, q.1.chain, q.4)
]

needs-known :
    (g : DependencyGraph) (a b : Text)
    → contains b (needs g a) ≡ true
    → contains a (Dict.keys g.nodes) ≡ true
unfolding dependencies_of
needs-known g a b h = ground (arith, h, keys_iff a g.nodes)

first_step :
    (g : DependencyGraph) (a : Text) {b : Text}
    → Reach (needs g) a b
    → contains a (Dict.keys g.nodes) ≡ true
first_step g a {b} (first i) = needs-known g a b i
first_step g a {b} (further r i) = first_step g a r

-- When cycle detection reports no cycle, no plugin depends on itself, directly or through others.
pub detect_cycles_complete :
    (g : DependencyGraph) (a : Text)
    → detect_cycles g ≡ some []
    → ¬ (Reach (λ x. dep_names (dependencies_of x g)) a a)
detect_cycles_complete g a h r =
    let (l, chain, all) = all_finished g h in
    let known =
      contains-of_All (λ t. contains t l ≡ true) (Dict.keys g.nodes) a all (first_step g a r) in
    omega (arith, (Reach-IsBelow g l a chain known r).below)
