-- ===== src/Graph/Exact.antt =====
-- The counters of Kahn's algorithm (abi/src/dependencies/graph.rs) are exact where no plugin names a
-- dependency twice, so that no plugin whose dependencies have all come out is left behind.
use skylet.Prelude.{
  ℕ, zero, suc, ◌≤◌, ◌≡◌, refl, sym, ◌∙◌, true, false, some, List, [], ◌∷◌, ◌++◌, arith, ◌==◌,
  if◌then◌else◌, Option-cases, Bool-cases, inl, inr,
}
use mathlib.Core.Path.{subst}
use mathlib.Core.List.{append_assoc}
use skylet.Prelude.Texts.{Text, text_eq_iff, contains}
use skylet.Prelude.Dict
use skylet.Prelude.Dict.{Dict, lookup-insert}
use skylet.Prelude.Sets.{Nodup, contains-append, is_some}
use skylet.Graph.{DependencyEdge, DependencyGraph, dependents_of, relax, kahn}
use skylet.Graph.Building.{IsWellFormed}
use skylet.Graph.Order.{targets, pending, contains-targets}
use skylet.Graph.Kahn.{contains-pushed}

-- A name that is not pending leaves as many pending.
pending-snoc_other :
    (done ts : List Text) (x : Text)
    → contains x ts ≡ false
    → pending (done ++ x ∷ []) ts ≡ pending done ts
pending-snoc_other done [] x h = refl
pending-snoc_other done (t ∷ ts) x h = ground (
  arith,
  h,
  pending-snoc_other done ts x,
  contains-append t done (x ∷ []),
  text_eq_iff x t,
  text_eq_iff t x,
)

-- Where no name is there twice, processing one name leaves one fewer pending at most.
pending-snoc_once :
    (done ts : List Text) (x : Text)
    → Nodup ts
    → pending done ts ≤ suc (pending (done ++ x ∷ []) ts)
pending-snoc_once done [] x n = omega arith
pending-snoc_once done (t ∷ ts) x n = ground (
  arith,
  n.0,
  pending-snoc_once done ts x n.1,
  pending-snoc_other done ts x,
  contains-append t done (x ∷ []),
  text_eq_iff x t,
  text_eq_iff t x,
)

module _ (es : List DependencyEdge) where
  -- No counter exceeds the number of dependencies still to come, and a counter of zero means that the
  -- plugin was put on the queue.
  pub record Exact (done : List Text) (m : Dict ℕ) (queue : List Text) : Type 0 where
    pub degree : (a : Text) (d : ℕ) → Dict.lookup a m ≡ some d → d ≤ pending done (targets a es)
    pub queued : (a : Text) → Dict.lookup a m ≡ some 0 → contains a (done ++ queue) ≡ true

  record Halfway (done : List Text) (x : Text) (left : List Text) (m : Dict ℕ) (queue : List Text)
      : Type 0 where
    degree :
        (a : Text) (d : ℕ)
        → Dict.lookup a m ≡ some d
        → d ≤ pending (if contains a left then done else done ++ x ∷ []) (targets a es)
    queued : (a : Text) → Dict.lookup a m ≡ some 0 → contains a ((done ++ x ∷ []) ++ queue) ≡ true

  record Finished (done : List Text) (x : Text) (m m' : Dict ℕ) (queue : List Text) : Type 0 where
    exact : Exact (done ++ x ∷ []) m' queue
    keys : (a : Text) → is_some (Dict.lookup a m') ≡ is_some (Dict.lookup a m)

  module _ (distinct : (a : Text) → Nodup (targets a es)) where
    counted :
        (done left queue : List Text) (x a : Text) (m : Dict ℕ) (d : ℕ)
        → contains a left ≡ false
        → Dict.lookup a m ≡ some (suc d)
        → Halfway done x (a ∷ left) m queue
        → Halfway done x left (Dict.insert a d m) (if d == 0 then queue ++ a ∷ [] else queue)
    counted done left queue x a m d last e h = record {
      degree = λ b c f. ground (
        arith,
        lookup-insert a b d m,
        text_eq_iff a b,
        text_eq_iff b a,
        last,
        f,
        h.degree a (suc d) e,
        h.degree b c,
        pending-snoc_once done (targets a es) x (distinct a),
      );
      queued = λ b f. ground (
        arith,
        contains-pushed b a (done ++ x ∷ []) queue (d == 0),
        lookup-insert a b d m,
        text_eq_iff a b,
        text_eq_iff b a,
        f,
        h.queued b,
      );
    }

    relax-Finished :
        (done : List Text) (x : Text) (left : List Text) (m m' : Dict ℕ) (queue queue' : List Text)
        → Nodup left
        → Halfway done x left m queue
        → relax left m queue ≡ some (m', queue')
        → Finished done x m m' queue'
    unfolding relax
    relax-Finished done x [] m m' queue queue' n h e =
        let same : m ≡ m' = ground (arith, e) in
        let same_queue : queue ≡ queue' = ground (arith, e) in
        record {
          exact = record {
            degree = λ a d f. h.degree a d (rw same f);
            queued = λ a f. rw same_queue at (h.queued a (rw same f));
          };
          keys = λ a. rw same refl;
        }
    relax-Finished done x (a ∷ left) m m' queue queue' n h e =
        elim (Option-cases (Dict.lookup a m)) [
          | inl absent ↦
              relax-Finished done x left m m' queue queue' n.1
                (record {
                  degree = λ b d f. ground (arith, h.degree b d f, text_eq_iff b a, absent, f);
                  queued = h.queued;
                })
                (ground (arith, e, absent))
          | inr (zero, f) ↦ ground (arith, e, f)
          | inr (suc d, f) ↦
              let r =
                relax-Finished done x left (Dict.insert a d m) m'
                  (if d == 0 then queue ++ a ∷ [] else queue) queue' n.1
                  (counted done left queue x a m d n.0 f h) (ground (arith, e, f)) in
              record {
                exact = r.exact;
                keys = λ b. ground (arith, r.keys b, lookup-insert a b d m, text_eq_iff a b, f);
              }
        ]

    -- The plugin taken off the queue is one whose dependents count down.
    begin :
        (g : DependencyGraph) (x : Text) (queue done : List Text) (m : Dict ℕ)
        → IsWellFormed g
        → es ≡ g.edges
        → Exact done m (x ∷ queue)
        → Halfway done x (dependents_of x g) m queue
    begin g x queue done m wf same h =
        let e : done ++ x ∷ queue ≡ (done ++ x ∷ []) ++ queue = simp append_assoc in
        record {
          degree = λ a d f. elim (Bool-cases (contains a (dependents_of x g))) [
            | inl i ↦ rw i (h.degree a d f)
            | inr o ↦ rw o (
                omega (
                  arith,
                  h.degree a d f,
                  pending-snoc_other done (targets a es) x
                      (contains-targets a x es ∙ rw same (sym (wf.indexed.index a x)) ∙ o),
                ))
          ];
          queued = λ a f. rw e at (h.queued a f);
        }

    pub record Emptied (m : Dict ℕ) (order : List Text) : Type 0 where
      pub degrees : Dict ℕ
      pub exact : Exact order degrees []
      pub keys : (a : Text) → is_some (Dict.lookup a degrees) ≡ is_some (Dict.lookup a m)

    pub kahn-Emptied :
        (g : DependencyGraph) (fuel : ℕ) (m : Dict ℕ) (queue done order : List Text)
        → IsWellFormed g
        → es ≡ g.edges
        → Exact done m queue
        → kahn fuel g m queue done ≡ some order
        → Emptied m order
    unfolding kahn
    kahn-Emptied g fuel m [] done order wf same h e =
        let same_order : done ≡ order = ground (arith, e) in
        subst (Emptied m) same_order (record { degrees = m; exact = h; keys = λ a. refl })
    kahn-Emptied g zero m (x ∷ queue) done order wf same h e = ground arith
    kahn-Emptied g (suc fuel) m (x ∷ queue) done order wf same h e =
        elim (Option-cases (relax (dependents_of x g) m queue)) [
          | inl stuck ↦ ground (arith, e, stuck)
          | inr ((m', queue'), found) ↦
              let r =
                relax-Finished done x (dependents_of x g) m m' queue queue' (wf.indexed.distinct x)
                  (begin g x queue done m wf same h) found in
              let rest =
                kahn-Emptied g fuel m' queue' (done ++ x ∷ []) order wf same r.exact
                  (ground (arith, e, found)) in
              record {
                degrees = rest.degrees;
                exact = rest.exact;
                keys = λ a. rest.keys a ∙ r.keys a;
              }
        ]
