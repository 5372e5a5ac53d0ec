-- ===== src/Graph/Finishing.antt =====
-- How the visits of the cycle detection of abi/src/dependencies/graph.rs finish plugins, when no cycle
-- is reported.
use skylet.Prelude.{◌≡◌, refl, sym, ap, ◌∙◌, true, false, not, ◌&&◌, List, [], ◌∷◌, ◌++◌, arith}
use skylet.Prelude.Texts.{Text, text_eq_iff, text_eq_refl, contains}
use skylet.Prelude.Sets.{contains-set_insert, contains-append}
use skylet.Graph.{DependencyGraph, Search, enter, without, drop_last, dep_names, dependencies_of}
use skylet.Graph.Acyclic.{contains-without}
use skylet.Graph.Order.{AllIn}

-- The names that a plugin depends on.
abbrev pub needs : DependencyGraph → Text → List Text
needs g x = dep_names (dependencies_of x g)

-- Finished plugins, the last one first: each once, and behind all that it depends on.
abbrev pub Chain : DependencyGraph → List Text → Type 0
Chain g [] = Unit
Chain g (x ∷ l) = (contains x l ≡ false) × AllIn l (needs g x) × Chain g l

-- Between two visits: what is finished is what was visited and is not on the stack, and the stack is
-- on the path.
pub record Finishing (g : DependencyGraph) (l : List Text) (s : Search) : Type 0 where
  pub chain : Chain g l
  pub finished : (a : Text) → contains a l ≡ (contains a s.visited && not (contains a s.rec_stack))
  pub on_path : (a : Text) → contains a s.rec_stack ≡ true → contains a s.path ≡ true
  pub seen : (a : Text) → contains a s.rec_stack ≡ true → contains a s.visited ≡ true

-- What visits make of it: more is finished, and the stack and the path are as before.
pub record Progress (g : DependencyGraph) (l : List Text) (s s' : Search) : Type 0 where
  pub more : List Text
  pub finishing : Finishing g more s'
  pub keeps : (a : Text) → contains a l ≡ true → contains a more ≡ true
  pub same_stack : (a : Text) → contains a s'.rec_stack ≡ contains a s.rec_stack
  pub same_path : s'.path ≡ s.path

-- A visit that ends with no cycle began with none, and finishes the plugin.
pub record Visited (g : DependencyGraph) (name : Text) (s s' : Search) : Type 0 where
  pub none_before : s.cycles ≡ []
  pub progress :
      (l : List Text) → Finishing g l s → (p : Progress g l s s') × (contains name p.more ≡ true)

drop_last-snoc : (l : List Text) (x : Text) → drop_last (l ++ x ∷ []) ≡ l
drop_last-snoc [] x = refl
drop_last-snoc (y ∷ []) x = refl
drop_last-snoc (y ∷ z ∷ l) x = ap (λ k. y ∷ k) (drop_last-snoc (z ∷ l) x)

module _ (g : DependencyGraph) where
  pub enter-Finishing :
      (l : List Text) (id : Text) (s : Search)
      → contains id s.visited ≡ false
      → Finishing g l s
      → Finishing g l (enter id s)
  enter-Finishing l id s new f = record {
    chain = f.chain;
    finished = λ a. ground (
      arith,
      f.finished a,
      f.seen a,
      new,
      contains-set_insert a id s.visited,
      contains-set_insert a id s.rec_stack,
      text_eq_iff a id,
    );
    on_path = λ a i. ground (
      arith,
      i,
      f.on_path a,
      contains-append a s.path (id ∷ []),
      contains-set_insert a id s.rec_stack,
    );
    seen = λ a i. ground (
      arith,
      i,
      f.seen a,
      contains-set_insert a id s.visited,
      contains-set_insert a id s.rec_stack,
    );
  }

  -- When the dependencies are finished, so is the plugin.
  abbrev pub left : Text → Search → Search
  left id mid = record mid { path = drop_last mid.path; rec_stack = without id mid.rec_stack }

  pub finish :
      (l : List Text) (id : Text) (s mid : Search)
      → contains id s.visited ≡ false
      → Finishing g l s
      → (p : Progress g l (enter id s) mid) → AllIn p.more (needs g id)
      → (q : Progress g l s (left id mid)) × (contains id q.more ≡ true)
  finish l id s mid new f p i =
      let fin = p.finishing in
      let not_on : contains id s.rec_stack ≡ false = ground (arith, f.seen id, new) in
      let on : contains id mid.rec_stack ≡ true =
        p.same_stack id ∙ ground (arith, contains-set_insert id id s.rec_stack, text_eq_refl id) in
      let fresh : contains id p.more ≡ false = ground (arith, fin.finished id, on) in
      let stack : (a : Text) → contains a (without id mid.rec_stack) ≡ contains a s.rec_stack = λ a.
        ground (
          arith,
          contains-without a id mid.rec_stack,
          p.same_stack a,
          contains-set_insert a id s.rec_stack,
          text_eq_iff a id,
          not_on,
        ) in
      let path : drop_last mid.path ≡ s.path =
        ap drop_last p.same_path ∙ drop_last-snoc s.path id in
      (
        record {
          more = id ∷ p.more;
          finishing = record {
            chain = (fresh, i, fin.chain);
            finished = λ a. ground (
              arith,
              fin.finished a,
              fin.seen id on,
              contains-without a id mid.rec_stack,
              text_eq_iff a id,
            );
            on_path = λ a j. ap (contains a) path ∙ f.on_path a (sym (stack a) ∙ j);
            seen = λ a j. ground (arith, j, contains-without a id mid.rec_stack, fin.seen a);
          };
          keeps = λ a j. ground (arith, p.keeps a j);
          same_stack = stack;
          same_path = path;
        },
        ground (arith, text_eq_refl id),
      )
