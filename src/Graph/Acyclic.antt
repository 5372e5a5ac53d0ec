-- ===== src/Graph/Acyclic.antt =====
-- Cycle detection (abi/src/dependencies/graph.rs) on graphs without cycles: it reports none.
use skylet.Prelude.{
  ℕ, zero, suc, ◌<◌, ◌≤◌, ◌≡◌, refl, sym, ap, ◌∙◌, true, false, not, ◌&&◌, Option, some, List, [],
  ◌∷◌, arith, if◌then◌else◌, Bool-cases, Option-cases, inl, inr,
}
use skylet.Prelude.Texts.{Text, text_eq, text_eq_iff, text_eq_refl, contains}
use skylet.Prelude.Dict
use skylet.Prelude.Sets.{contains-set_insert}
use skylet.Graph.{
  Dependency, DependencyGraph, Search, enter, leave, without, visit_one, visit_all,
  detect_cycles_dfs, search_from, search_fuel, detect_cycles, dep_names, dependencies_of,
}
use skylet.Graph.Building.{has_edge, IsWellFormed}
use skylet.Graph.Cycles.{detect_cycles-returns}

-- A numbering of the plugins that falls along every edge: the graph has no cycle.
pub record IsRanked (rank : Text → ℕ) (g : DependencyGraph) : Type 0 where
  pub falls : (a b : Text) → has_edge a b g.edges ≡ true → rank b < rank a

-- The search stack holds plugins of a rank of at least `n` alone.
record StackFrom (rank : Text → ℕ) (n : ℕ) (s : Search) : Type 0 where
  at : (x : Text) → contains x s.rec_stack ≡ true → n ≤ rank x

-- A part of the search that reports no cycle and leaves the stack as it was.
record Quiet (s s' : Search) : Type 0 where
  same_cycles : s'.cycles ≡ s.cycles
  same_stack : (x : Text) → contains x s'.rec_stack ≡ contains x s.rec_stack

pub contains-without :
    (a x : Text) (l : List Text) → contains a (without x l) ≡ (contains a l && not (text_eq a x))
contains-without a x [] = refl
contains-without a x (y ∷ l) =
    ground (arith, contains-without a x l, text_eq_iff a y, text_eq_iff y x, text_eq_iff a x)

Quiet-of_eq : (s s' : Search) → s ≡ s' → Quiet s s'
Quiet-of_eq s s' e = record {
  same_cycles = ap (λ (t : Search). t.cycles) (sym e);
  same_stack = λ x. ap (λ (t : Search). contains x t.rec_stack) (sym e);
}

Quiet-trans : (s mid s' : Search) → Quiet s mid → Quiet mid s' → Quiet s s'
Quiet-trans s mid s' p q = record {
  same_cycles = q.same_cycles ∙ p.same_cycles;
  same_stack = λ x. q.same_stack x ∙ p.same_stack x;
}

module _ (rank : Text → ℕ) where
  StackFrom-Quiet : (n : ℕ) (s s' : Search) → Quiet s s' → StackFrom rank n s → StackFrom rank n s'
  StackFrom-Quiet n s s' q h = record { at = λ x i. h.at x (sym (q.same_stack x) ∙ i) }

  abbrev IsQuiet : (Text → Search → Option Search) → Type 0
  IsQuiet visit =
      (name : Text) (s s' : Search)
      → StackFrom rank (suc (rank name)) s
      → visit name s ≡ some s'
      → Quiet s s'

  visit_one-Quiet :
      (visit : Text → Search → Option Search)
      → IsQuiet visit
      → (name : Text) (s s' : Search) → StackFrom rank (suc (rank name)) s
      → visit_one visit name s ≡ some s'
      → Quiet s s'
  unfolding visit_one
  visit_one-Quiet visit q name s s' h e = elim (Bool-cases (contains name s.visited)) [
    | inr new ↦ q name s s' h (rw new at e)
    | inl seen ↦ elim (Bool-cases (contains name s.rec_stack)) [
      | inl open_ ↦ absurd (omega (arith, h.at name open_))
      | inr done ↦ Quiet-of_eq s s' (ground (arith, e, seen, done))
    ]
  ]

  visit_all-Quiet :
      (visit : Text → Search → Option Search)
      → IsQuiet visit
      → (n : ℕ) (deps : List Dependency) (s s' : Search)
      → ((b : Text) → contains b (dep_names deps) ≡ true → rank b < n)
      → StackFrom rank n s
      → visit_all visit deps s ≡ some s'
      → Quiet s s'
  unfolding visit_all
  visit_all-Quiet visit q n [] s s' below h e = Quiet-of_eq s s' (ground (arith, e))
  visit_all-Quiet visit q n (dep ∷ deps) s s' below h e =
      elim (Option-cases (visit_one visit dep.name s)) [
        | inl stuck ↦ ground (arith, e, stuck)
        | inr (mid, found) ↦
            let first =
              visit_one-Quiet visit q dep.name s mid
                (record {
                  at = λ x i.
                      omega
                        (arith, h.at x i, below dep.name (ground (arith, text_eq_refl dep.name)));
                })
                found in
            Quiet-trans s mid s' first (
              visit_all-Quiet visit q n deps mid s' (λ b i. below b (ground (arith, i)))
                (StackFrom-Quiet n s mid first h) (ground (arith, e, found)))
      ]

  enter_from :
      (id : Text) (s : Search)
      → StackFrom rank (suc (rank id)) s
      → StackFrom rank (rank id) (enter id s)
  enter_from id s h = record {
    at = λ x i. ground (arith, contains-set_insert x id s.rec_stack, text_eq_iff x id, h.at x);
  }

  leave-Quiet :
      (id : Text) (s mid s' : Search)
      → StackFrom rank (suc (rank id)) s
      → Quiet (enter id s) mid
      → leave id (some mid) ≡ some s'
      → Quiet s s'
  leave-Quiet id s mid s' h q e =
      let fresh : contains id s.rec_stack ≡ false = ground (arith, h.at id) in
      record {
        same_cycles = ground (arith, e, q.same_cycles);
        same_stack = λ x. ground (
          arith,
          e,
          contains-without x id mid.rec_stack,
          q.same_stack x,
          contains-set_insert x id s.rec_stack,
          text_eq_iff x id,
          fresh,
        );
      }

  detect_cycles_dfs-Quiet :
      (fuel : ℕ) (g : DependencyGraph)
      → IsWellFormed g
      → IsRanked rank g
      → IsQuiet (detect_cycles_dfs fuel g)
  unfolding detect_cycles_dfs
  detect_cycles_dfs-Quiet zero g wf r id s s' h e = ground (arith, e)
  detect_cycles_dfs-Quiet (suc fuel) g wf r id s s' h e =
      elim (Option-cases
        (visit_all (detect_cycles_dfs fuel g) (dependencies_of id g) (enter id s))) [
          | inl stuck ↦ ground (arith, e, stuck)
          | inr (mid, found) ↦
              leave-Quiet id s mid s' h
                (visit_all-Quiet (detect_cycles_dfs fuel g) (detect_cycles_dfs-Quiet fuel g wf r)
                  (rank id) (dependencies_of id g) (enter id s) mid
                  (λ b i. r.falls id b (wf.targets id b i)) (enter_from id s h) found)
                (ap (leave id) (sym found) ∙ e)
        ]

  root-Quiet :
      (fuel : ℕ) (g : DependencyGraph) (id : Text) (s s' : Search)
      → IsWellFormed g
      → IsRanked rank g
      → ((x : Text) → contains x s.rec_stack ≡ false)
      → (if not (contains id s.visited) then detect_cycles_dfs fuel g id s else some s) ≡ some s'
      → Quiet s s'
  root-Quiet fuel g id s s' wf r h e = elim (Bool-cases (contains id s.visited)) [
    | inl seen ↦ Quiet-of_eq s s' (ground (arith, e, seen))
    | inr new ↦
        detect_cycles_dfs-Quiet fuel g wf r id s s' (record { at = λ x i. ground (arith, h x, i) })
          (rw new at e)
  ]

  search_from-Quiet :
      (fuel : ℕ) (g : DependencyGraph) (ids : List Text) (s s' : Search)
      → IsWellFormed g
      → IsRanked rank g
      → ((x : Text) → contains x s.rec_stack ≡ false)
      → search_from fuel g ids s ≡ some s'
      → s'.cycles ≡ s.cycles
  unfolding search_from
  search_from-Quiet fuel g [] s s' wf r h e = (Quiet-of_eq s s' (ground (arith, e))).same_cycles
  search_from-Quiet fuel g (id ∷ ids) s s' wf r h e =
      elim (Option-cases
        (if not (contains id s.visited) then detect_cycles_dfs fuel g id s else some s)) [
          | inl stuck ↦ ground (arith, e, stuck)
          | inr (mid, found) ↦
              let first = root-Quiet fuel g id s mid wf r h found in
              search_from-Quiet fuel g ids mid s' wf r (λ x. first.same_stack x ∙ h x)
                (ground (arith, e, found))
              ∙ first.same_cycles
        ]

-- Cycle detection reports no cycle in a well-formed graph whose plugins can be numbered such that
-- every dependency has a lower number than its dependents.
pub detect_cycles-none :
    (rank : Text → ℕ) (g : DependencyGraph)
    → IsWellFormed g
    → IsRanked rank g
    → detect_cycles g ≡ some []
unfolding detect_cycles
detect_cycles-none rank g wf r =
    let empty : Search = record { visited = []; rec_stack = []; path = []; cycles = [] } in
    let (cycles, e) = detect_cycles-returns g in
    elim (Option-cases (search_from (search_fuel g) g (Dict.keys g.nodes) empty)) [
      | inl stuck ↦ ground (arith, e, stuck)
      | inr (s, found) ↦ ground (
        arith,
        found,
        search_from-Quiet rank (search_fuel g) g (Dict.keys g.nodes) empty s wf r (λ x. refl) found,
      )
    ]
