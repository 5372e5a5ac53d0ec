-- ===== src/Graph/Order.antt =====
-- Activation orders of abi/src/dependencies/graph.rs: each plugin once, and behind all plugins that
-- it depends on.
use skylet.Prelude.{
  ℕ, suc, ◌≤◌, ◌<◌, ◌≡◌, refl, true, false, List, [], ◌∷◌, ◌++◌, arith, if◌then◌else◌, Bool-cases,
  inl, inr,
}
use mathlib.Core.List.{append-nil, append_assoc}
use skylet.Prelude.Lists.{length, All}
use skylet.Prelude.Texts.{Text, text_eq, text_eq_iff, contains}
use skylet.Prelude.Sets.{contains-append}
use skylet.Graph.{DependencyEdge}
use skylet.Graph.Building.{has_edge}

-- The plugins that `a` depends on, once for each edge.
abbrev pub targets : Text → List DependencyEdge → List Text
targets a [] = []
targets a (e ∷ es) = if text_eq e.from a then e.to ∷ targets a es else targets a es

abbrev pub AllIn : List Text → List Text → Type 0
AllIn seen = All (λ t. contains t seen ≡ true)

-- `order` continues `seen`: none of it was seen, and the dependencies of each come before it.
abbrev pub InOrder : List DependencyEdge → List Text → List Text → Type 0
InOrder es seen [] = Unit
InOrder es seen (x ∷ order) =
    (contains x seen ≡ false) × AllIn seen (targets x es) × InOrder es (seen ++ x ∷ []) order

-- How many of some names are not among those processed.
abbrev pub pending : List Text → List Text → ℕ
pending done [] = 0
pending done (t ∷ ts) = if contains t done then pending done ts else suc (pending done ts)

pub pending-nil : (ts : List Text) → pending [] ts ≡ length ts
pending-nil [] = refl
pending-nil (t ∷ ts) = ground (arith, pending-nil ts)

pub contains-targets :
    (a b : Text) (es : List DependencyEdge) → contains b (targets a es) ≡ has_edge a b es
contains-targets a b [] = refl
contains-targets a b (e ∷ es) =
    ground (arith, contains-targets a b es, text_eq_iff e.to b, text_eq_iff b e.to)

All_contains :
    (b : Text) (seen ts : List Text) → AllIn seen ts → contains b ts ≡ true → contains b seen ≡ true
All_contains b seen [] h i = ground arith
All_contains b seen (t ∷ ts) h i = ground (arith, All_contains b seen ts h.1, text_eq_iff b t, h.0)

pub AllIn-of_pending : (done ts : List Text) → pending done ts ≡ 0 → AllIn done ts
AllIn-of_pending done [] h = tt
AllIn-of_pending done (t ∷ ts) h = (ground arith, AllIn-of_pending done ts (ground arith))

-- Processing one more name leaves fewer pending, if it is one of them.
pub pending-snoc_le :
    (done ts : List Text) (x : Text) → pending (done ++ x ∷ []) ts ≤ pending done ts
pending-snoc_le done [] x = omega arith
pending-snoc_le done (t ∷ ts) x =
    ground (arith, pending-snoc_le done ts x, contains-append t done (x ∷ []))

pub pending-snoc_lt :
    (done ts : List Text) (x : Text)
    → contains x done ≡ false
    → contains x ts ≡ true
    → pending (done ++ x ∷ []) ts < pending done ts
pending-snoc_lt done [] x h k = ground arith
pending-snoc_lt done (t ∷ ts) x h k = ground (
  arith,
  pending-snoc_le done ts x,
  pending-snoc_lt done ts x h,
  contains-append t done (x ∷ []),
  text_eq_iff x t,
  text_eq_iff t x,
)

pub InOrder-snoc :
    (es : List DependencyEdge) (seen order : List Text) (x : Text)
    → InOrder es seen order
    → contains x (seen ++ order) ≡ false
    → AllIn (seen ++ order) (targets x es)
    → InOrder es seen (order ++ x ∷ [])
InOrder-snoc es seen [] x h k a = (rw append-nil at k, rw append-nil at a, tt)
InOrder-snoc es seen (y ∷ order) x h k a =
    let e : seen ++ y ∷ order ≡ (seen ++ y ∷ []) ++ order = simp append_assoc in
    (h.0, h.1, InOrder-snoc es (seen ++ y ∷ []) order x h.2 (rw e at k) (rw e at a))

-- What comes in order was seen before or comes after: so is whatever it depends on.
pub target_seen :
    (es : List DependencyEdge) (seen order : List Text) (a b : Text)
    → InOrder es seen order
    → contains a order ≡ true
    → has_edge a b es ≡ true
    → contains b (seen ++ order) ≡ true
target_seen es seen [] a b h i e = ground arith
target_seen es seen (x ∷ order) a b h i e = elim (Bool-cases (text_eq a x)) [
  | inl here ↦
      let b_seen : contains b seen ≡ true =
        All_contains b seen (targets x es) h.1
          (ground (arith, contains-targets a b es, text_eq_iff a x, here)) in
      ground (arith, contains-append b seen (x ∷ order), b_seen)
  | inr later ↦
      let e' : (seen ++ x ∷ []) ++ order ≡ seen ++ x ∷ order = simp append_assoc in
      rw e' at (target_seen es (seen ++ x ∷ []) order a b h.2 (ground arith) e)
]
