-- ===== src/Examples/Access.antt =====
-- Permissions (permissions/src/types.rs and authz.rs) at sample values.
use skylet.Prelude.{List, [], ◌∷◌}
use skylet.Prelude.Texts.{Text, codes}
use skylet.Authz.{Permission}
use skylet.Authz.Overlap.{Event, compute, write, assign, forget_all}

abbrev permission : Text → Text → Text → Permission
permission a b c = record { namespace = a; resource = b; action = c }

abbrev read_doc : Permission
read_doc = permission (codes "self") (codes "doc") (codes "read")

-- The user is checked, becomes an administrator, and is checked again while the cache is emptied.
abbrev events : List Event
events =
    compute (codes "ann") read_doc
    ∷ write 1 0
    ∷ assign (codes "ann") (codes "admin" ∷ [])
    ∷ compute (codes "ann") read_doc
    ∷ forget_all
    ∷ write 3 0
    ∷ []
