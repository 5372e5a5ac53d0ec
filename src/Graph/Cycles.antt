-- ===== src/Graph/Cycles.antt =====
-- The cycle detection of abi/src/dependencies/graph.rs ends: each recursive call visits a name of the
-- graph that was not visited before, so the fuel is never used up.
use skylet.Prelude.{
  ℕ, zero, suc, ◌≤◌, ◌<◌, ◌≡◌, refl, true, false, not, Option, some, List, [], ◌∷◌, arith,
  if◌then◌else◌, Bool-cases, inl, inr,
}
use skylet.Prelude.Texts.{Text, text_eq_iff, contains}
use skylet.Prelude.Dict
use skylet.Prelude.Dict.{Dict}
use skylet.Prelude.Sets.{set_insert, contains-append}
use skylet.Graph.{
  Dependency, PluginNode, DependencyGraph, Search, enter, drop_last, without, add_cycle, from_first,
  visit_one, visit_all, detect_cycles_dfs, search_from, dep_names, dependencies_of, deps_or_none,
  node_names, search_fuel, detect_cycles,
}
use skylet.Graph.Order.{pending, pending-nil, pending-snoc_le, pending-snoc_lt}

pending-insert_le :
    (done names : List Text) (x : Text) → pending (set_insert x done) names ≤ pending done names
pending-insert_le done names x = ground (arith, pending-snoc_le done names x)

pending-insert_lt :
    (done names : List Text) (x : Text)
    → contains x done ≡ false
    → contains x names ≡ true
    → pending (set_insert x done) names < pending done names
pending-insert_lt done names x h k = ground (arith, pending-snoc_lt done names x h k)

-- The names of a plugin's dependencies are among the names of the graph.
names_of_deps :
    (id b : Text) (m : Dict PluginNode)
    → contains b (dep_names (deps_or_none (Dict.lookup id m))) ≡ true
    → contains b (node_names m) ≡ true
unfolding Dict.lookup
names_of_deps id b [] h = ground arith
names_of_deps id b ((j, n) ∷ m) h =
    ground
      (arith, names_of_deps id b m, contains-append b (j ∷ dep_names n.dependencies) (node_names m))

names_of_keys :
    (b : Text) (m : Dict PluginNode)
    → contains b (Dict.keys m) ≡ true
    → contains b (node_names m) ≡ true
names_of_keys b [] h = ground arith
names_of_keys b ((j, n) ∷ m) h =
    ground
      (arith, names_of_keys b m, contains-append b (j ∷ dep_names n.dependencies) (node_names m))

-- A search that returns, and has not forgotten a visited name.
record Returns (names : List Text) (s : Search) (r : Option Search) : Type 0 where
  final : Search
  returned : r ≡ some final
  fewer : pending final.visited names ≤ pending s.visited names

module _ (names : List Text) where
  -- The recursive call returns wherever there is fuel for what is pending.
  Visits : ℕ → (Text → Search → Option Search) → Type 0
  Visits fuel visit =
      (id : Text) (s : Search)
      → contains id s.visited ≡ false
      → contains id names ≡ true
      → pending s.visited names < fuel
      → Returns names s (visit id s)

  visit_one-Returns :
      (fuel : ℕ) (visit : Text → Search → Option Search) (name : Text) (s : Search)
      → Visits fuel visit
      → contains name names ≡ true
      → pending s.visited names < fuel
      → Returns names s (visit_one visit name s)
  unfolding Visits visit_one
  visit_one-Returns fuel visit name s rec k p = elim (Bool-cases (contains name s.visited)) [
    | inl e ↦
        let final = if contains name s.rec_stack then add_cycle (from_first name s.path) s else s in
        record { final = final; returned = ground arith; fewer = ground arith }
    | inr e ↦ rw (e, visit_one) (rec name s e k p)
  ]

  visit_all-Returns :
      (fuel : ℕ) (visit : Text → Search → Option Search) (deps : List Dependency) (s : Search)
      → Visits fuel visit
      → ((b : Text) → contains b (dep_names deps) ≡ true → contains b names ≡ true)
      → pending s.visited names < fuel
      → Returns names s (visit_all visit deps s)
  unfolding visit_all
  visit_all-Returns fuel visit [] s rec k p = record {
    final = s;
    returned = refl;
    fewer = omega arith;
  }
  visit_all-Returns fuel visit (dep ∷ deps) s rec k p =
      let one =
        visit_one-Returns fuel visit dep.name s rec
          (k dep.name (ground (arith, text_eq_iff dep.name dep.name))) p in
      let rest =
        visit_all-Returns fuel visit deps one.final rec (λ b i. k b (ground arith))
          (omega (arith, one.fewer)) in
      rw (one.returned, visit_all)
        (record {
          final = rest.final;
          returned = rest.returned;
          fewer = omega (arith, one.fewer, rest.fewer);
        })

  module _ (g : DependencyGraph)
      (closed : (id b : Text)
        → contains b (dep_names (dependencies_of id g)) ≡ true
        → contains b names ≡ true) where
    -- With fuel for the names that are pending the search from a plugin returns.
    dfs-Returns : (fuel : ℕ) → Visits fuel (detect_cycles_dfs fuel g)
    unfolding detect_cycles_dfs Visits
    dfs-Returns zero id s fresh k p = absurd (omega arith)
    dfs-Returns (suc fuel) id s fresh k p =
        let r =
          visit_all-Returns fuel (detect_cycles_dfs fuel g) (dependencies_of id g) (enter id s)
            (dfs-Returns fuel) (closed id)
            (omega (arith, pending-insert_lt s.visited names id fresh k)) in
        rw (r.returned, detect_cycles_dfs)
          (record {
            final = record r.final {
              path = drop_last r.final.path;
              rec_stack = without id r.final.rec_stack;
            };
            returned = refl;
            fewer = omega (arith, r.fewer, pending-insert_le s.visited names id);
          })

    start-Returns :
        (fuel : ℕ) (id : Text) (s : Search)
        → contains id names ≡ true
        → pending s.visited names < fuel
        → Returns names s
            (if not (contains id s.visited) then detect_cycles_dfs fuel g id s else some s)
    start-Returns fuel id s k p = elim (Bool-cases (contains id s.visited)) [
      | inl e ↦ rw e (record { final = s; returned = refl; fewer = omega arith })
      | inr e ↦ rw e (unfold Visits in dfs-Returns fuel id s e k p)
    ]

    search-Returns :
        (fuel : ℕ) (ids : List Text) (s : Search)
        → ((b : Text) → contains b ids ≡ true → contains b names ≡ true)
        → pending s.visited names < fuel
        → Returns names s (search_from fuel g ids s)
    unfolding search_from
    search-Returns fuel [] s k p = record { final = s; returned = refl; fewer = omega arith }
    search-Returns fuel (id ∷ ids) s k p =
        let one = start-Returns fuel id s (k id (ground (arith, text_eq_iff id id))) p in
        let rest =
          search-Returns fuel ids one.final (λ b i. k b (ground arith))
            (omega (arith, one.fewer)) in
        rw (one.returned, search_from)
          (record {
            final = rest.final;
            returned = rest.returned;
            fewer = omega (arith, one.fewer, rest.fewer);
          })

-- Cycle detection returns on every graph.
pub detect_cycles-returns :
    (g : DependencyGraph) → (cycles : List (List Text)) × (detect_cycles g ≡ some cycles)
unfolding detect_cycles dependencies_of
detect_cycles-returns g =
    let names = node_names g.nodes in
    let r =
      search-Returns names g (λ id b i. names_of_deps id b g.nodes i) (search_fuel g)
        (Dict.keys g.nodes) (record { visited = []; rec_stack = []; path = []; cycles = [] })
        (λ b i. names_of_keys b g.nodes i) (omega (arith, pending-nil names)) in
    (r.final.cycles, rw r.returned)
