-- ===== src/Audit/Logic.antt =====
-- The combined filters of abi/src/audit.rs: their three ways of evaluation agree.
use skylet.Prelude.{◌≡◌, Bool, true, false, ◌&&◌, ◌||◌, arith}
use skylet.Audit.{AuditEvent}
use skylet.Audit.Queries.{
  FilterLogic, Conditions, complex, nil, cons, all_and, all_or, logic_matches, all_match, any_match,
  left_to_right,
}

left_to_right-all_and :
    (e : AuditEvent) (r : Bool) (cs : Conditions)
    → all_and cs ≡ true
    → left_to_right e false r cs ≡ (r && all_match e cs)
unfolding logic_matches
left_to_right-all_and e r nil h = ground arith
left_to_right-all_and e r (cons l is_and cs) h =
    ground (arith, h, left_to_right-all_and e (r && logic_matches e l) cs)

left_to_right-all_or :
    (e : AuditEvent) (r : Bool) (cs : Conditions)
    → all_or cs ≡ true
    → left_to_right e false r cs ≡ (r || any_match e cs)
unfolding logic_matches
left_to_right-all_or e r nil h = ground arith
left_to_right-all_or e r (cons l is_and cs) h =
    ground (arith, h, left_to_right-all_or e (r || logic_matches e l) cs)

-- Conditions, one at least, are evaluated from left to right, each connective joining what stands in
-- front of it, and the first one's is not used: the shortcuts for conditions that are all joined by
-- `and`, or all by `or`, give the same.
pub complex-left_to_right :
    (e : AuditEvent) (l : FilterLogic) (is_and : Bool) (cs : Conditions)
    → logic_matches e (complex (cons l is_and cs)) ≡ left_to_right e false (logic_matches e l) cs
unfolding logic_matches
complex-left_to_right e l is_and cs = ground (
  arith,
  left_to_right-all_and e (logic_matches e l) cs,
  left_to_right-all_or e (logic_matches e l) cs,
)
