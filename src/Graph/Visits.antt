-- ===== src/Graph/Visits.antt =====
-- The visits of the cycle detection of abi/src/dependencies/graph.rs, when they report no cycle: each
-- of them finishes its plugin.
use skylet.Prelude.{
  ℕ, zero, suc, ◌≡◌, refl, sym, ap, ◌∙◌, true, false, Option, some, List, [], ◌∷◌, ◌++◌, arith,
  Bool-cases, Option-cases, inl, inr,
}
use mathlib.Core.Path.{subst}
use skylet.Prelude.Texts.{Text, text_eq, text_eq_iff, contains}
use skylet.Graph.{
  Dependency, DependencyGraph, Search, enter, from_first, visit_one, visit_all, detect_cycles_dfs,
  dep_names, dependencies_of,
}
use skylet.Graph.Order.{AllIn}
use skylet.Graph.Finishing.{Finishing, Progress, Visited, enter-Finishing, left, finish}

from_first-some :
    (x : Text) (l : List Text) → contains x l ≡ true → (c : List Text) × (from_first x l ≡ some c)
from_first-some x [] h = ground arith
from_first-some x (y ∷ l) h = elim (Bool-cases (text_eq y x)) [
  | inl e ↦ (y ∷ l, rw e refl)
  | inr e ↦
      let (c, f) = from_first-some x l (ground (arith, h, e, text_eq_iff x y, text_eq_iff y x)) in
      (c, rw e f)
]

snoc-not_nil : (l : List (List Text)) (c : List Text) → ¬ (l ++ c ∷ [] ≡ [])
snoc-not_nil [] c e = ground arith
snoc-not_nil (x ∷ l) c e = ground arith

module _ (g : DependencyGraph) where
  abbrev IsVisit : (Text → Search → Option Search) → Type 0
  IsVisit visit =
      (name : Text) (s s' : Search)
      → contains name s.visited ≡ false
      → visit name s ≡ some s'
      → s'.cycles ≡ []
      → Visited g name s s'

  abbrev unchanged : (l : List Text) (s s' : Search) → s ≡ s' → Finishing g l s → Progress g l s s'
  unchanged l s s' e f = record {
    more = l;
    finishing = subst (Finishing g l) e f;
    keeps = λ a i. i;
    same_stack = λ a. ap (λ (t : Search). contains a t.rec_stack) (sym e);
    same_path = ap (λ (t : Search). t.path) (sym e);
  }

  visit_one-Visited :
      (visit : Text → Search → Option Search)
      → IsVisit visit
      → (name : Text) (s s' : Search) → visit_one visit name s ≡ some s'
      → s'.cycles ≡ []
      → Visited g name s s'
  unfolding visit_one
  visit_one-Visited visit v name s s' e c = elim (Bool-cases (contains name s.visited)) [
    | inr new ↦ v name s s' new (rw new at e) c
    | inl old ↦ elim (Bool-cases (contains name s.rec_stack)) [
      | inr closed ↦
          let same : s ≡ s' = ground (arith, e, old, closed) in
          record {
            none_before = ap (λ (t : Search). t.cycles) same ∙ c;
            progress = λ l f. (unchanged l s s' same f, f.finished name ∙ rw (old, closed) refl);
          }
      | inl on_stack ↦ elim (Option-cases (from_first name s.path)) [
        | inr (cycle, found) ↦
            absurd (snoc-not_nil s.cycles cycle (ground (arith, e, c, old, on_stack, found)))
        | inl lost ↦
            let same : s ≡ s' = ground (arith, e, old, on_stack, lost) in
            record {
              none_before = ap (λ (t : Search). t.cycles) same ∙ c;
              progress = λ l f.
                  let (cycle, found) = from_first-some name s.path (f.on_path name on_stack) in
                  ground (arith, lost, found);
            }
      ]
    ]
  ]

  -- A row of visits finishes all of its plugins.
  record AllVisited (ds : List Dependency) (s s' : Search) : Type 0 where
    none_before : s.cycles ≡ []
    progress :
        (l : List Text) → Finishing g l s → (p : Progress g l s s') × AllIn p.more (dep_names ds)

  visit_all-AllVisited :
      (visit : Text → Search → Option Search)
      → IsVisit visit
      → (ds : List Dependency) (s s' : Search) → visit_all visit ds s ≡ some s'
      → s'.cycles ≡ []
      → AllVisited ds s s'
  unfolding visit_all
  visit_all-AllVisited visit v [] s s' e c =
      let same : s ≡ s' = ground (arith, e) in
      record {
        none_before = ap (λ (t : Search). t.cycles) same ∙ c;
        progress = λ l f. (unchanged l s s' same f, tt);
      }
  visit_all-AllVisited visit v (d ∷ ds) s s' e c = elim (Option-cases (visit_one visit d.name s)) [
    | inl stuck ↦ ground (arith, e, stuck)
    | inr (mid, found) ↦
        let rest = visit_all-AllVisited visit v ds mid s' (ground (arith, e, found)) c in
        let one = visit_one-Visited visit v d.name s mid found rest.none_before in
        record {
          none_before = one.none_before;
          progress = λ l f.
              let (p, i) = one.progress l f in
              let (q, j) = rest.progress p.more p.finishing in
              (
                record {
                  more = q.more;
                  finishing = q.finishing;
                  keeps = λ a k. q.keeps a (p.keeps a k);
                  same_stack = λ a. q.same_stack a ∙ p.same_stack a;
                  same_path = q.same_path ∙ p.same_path;
                },
                (q.keeps d.name i, j),
              );
        }
  ]

  pub detect_cycles_dfs-IsVisit : (fuel : ℕ) → IsVisit (detect_cycles_dfs fuel g)
  unfolding detect_cycles_dfs
  detect_cycles_dfs-IsVisit zero id s s' new e c = ground (arith, e)
  detect_cycles_dfs-IsVisit (suc fuel) id s s' new e c =
      elim (Option-cases
        (visit_all (detect_cycles_dfs fuel g) (dependencies_of id g) (enter id s))) [
          | inl stuck ↦ ground (arith, e, stuck)
          | inr (mid, found) ↦
              let same : left g id mid ≡ s' = ground (arith, e, found) in
              let all_visited =
                visit_all-AllVisited (detect_cycles_dfs fuel g) (detect_cycles_dfs-IsVisit fuel)
                  (dependencies_of id g) (enter id s) mid found
                  (ap (λ (t : Search). t.cycles) same ∙ c) in
              subst (Visited g id s) same (record {
                none_before = all_visited.none_before;
                progress = λ l f.
                    let (p, i) = all_visited.progress l (enter-Finishing g l id s new f) in
                    finish g l id s mid new f p i;
              })
        ]
