-- ===== src/Examples/Approvals.antt =====
-- The approval workflow (abi/src/security_rfc/policy.rs) at sample values.
use skylet.Prelude.{◌≤◌, ◌≡◌, refl, false, List, [], ◌∷◌}
use skylet.Prelude.Lists.{length}
use skylet.Prelude.Texts.{codes}
use skylet.Policy.{Clock, default_policy, with_policy, network, pending_for}
use skylet.Policy.Review.{Operation, request, reject, cleanup, is_capability_approved, perform}
use skylet.Policy.Approval.{perform-grants_nothing}
use skylet.Policy.Overlap.{Event, admit, file, advance_all, initial, advance_all-bound}

abbrev clock : Clock
clock = record { timestamp = 7; created_at = 8; now = 9 }

abbrev history : List Operation
history =
    request clock (codes "mail") network []
    ∷ reject (codes "appr-mail-1") (codes "no")
    ∷ cleanup 6000
    ∷ []

perform-grants_nothing_example :
    is_capability_approved (codes "mail") network (perform (with_policy default_policy) history)
    ≡ false
perform-grants_nothing_example =
    perform-grants_nothing default_policy history (codes "mail") network refl

-- Two requests of one plugin pass the test together.
abbrev events : List Event
events =
    admit (codes "mail")
    ∷ admit (codes "mail")
    ∷ file 0 clock network []
    ∷ file 0 clock network []
    ∷ []

advance_all-bound_example :
    length (
      pending_for
        (codes "mail")
        (advance_all 1 events (initial default_policy)).engine.pending_approvals)
    ≤ 11
advance_all-bound_example = advance_all-bound 1 default_policy events (codes "mail")
