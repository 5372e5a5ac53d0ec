-- ===== src/Examples/Enforcement.antt =====
-- The enforcers of a plugin's access (abi/src/security_rfc/filesystem.rs and network.rs) at sample values.
use skylet.Prelude.{◌≡◌, ◌⊎◌, ◌↔◌, refl, true, ◌||◌, some, List, [], ◌∷◌, Result, is_ok, map}
use skylet.Prelude.Lists.{any}
use skylet.Prelude.Texts.{Text, codes, text_eq}
use skylet.Prelude.Dict
use skylet.Enforcers.{read_write, append, approved, denied}
use skylet.Enforcers.Filesystem.{
  PathPermission, new_filesystem, path_matches, permits, permissions_of, is_global,
  resolve_vfs_path, check_access,
}
use skylet.Enforcers.Paths.{
  Call, register, add, remove, run, given, Covers, path_matches_iff, check_access-run,
}
use skylet.Enforcers.Network.{
  NetworkEnforcer, NetworkAccessError, new_network, ascii_lower, check_host, open_host,
}
use skylet.Enforcers.Access.{Blocked, IsOpen, IsGranted, check_host-decides}

abbrev data_files : PathPermission
data_files = record {
  path = codes "plugin-data://*";
  mode = read_write;
  status = approved;
  source = codes "mail";
}

abbrev mail_calls : List Call
mail_calls =
    register (codes "mail") []
    ∷ add (codes "mail") data_files
    ∷ remove (codes "db")
    ∷ add (codes "db") (record data_files { status = denied })
    ∷ []

check_access-run_example :
    is_ok (
      check_access
        (codes "mail")
        (codes "plugin-data://inbox")
        append
        (run mail_calls new_filesystem))
    ≡ (is_global
          (resolve_vfs_path (codes "plugin-data://inbox") new_filesystem)
          append
          new_filesystem
        || any
            (permits
              (resolve_vfs_path (codes "plugin-data://inbox") new_filesystem)
              append
              new_filesystem)
            (given (codes "mail") mail_calls (permissions_of (codes "mail") new_filesystem)))
check_access-run_example =
    check_access-run mail_calls (codes "mail") (codes "plugin-data://inbox") append new_filesystem

path_matches_iff_example :
    (path_matches (codes "database") (codes "data/*") ≡ true)
    ↔ Covers (codes "data/*") (codes "database")
path_matches_iff_example = path_matches_iff (codes "database") (codes "data/*")

abbrev ascii_lowercase : Text → Text
ascii_lowercase = map ascii_lower

abbrev mail_network : NetworkEnforcer
mail_network = record new_network {
  permissions = (codes "mail", open_host (codes "*.Mail.org") ∷ []) ∷ [];
}

check_host-decides_example :
    (r : Result (Unit {0}) NetworkAccessError) × (check_host ascii_lowercase
        (codes "mail")
        (codes "smtp.mail.org")
        25
        (codes "tcp")
        mail_network
      ≡ some r)
    × ((is_ok r ≡ true) ↔ (
        (¬ Blocked ascii_lowercase (codes "smtp.mail.org") mail_network)
        × (IsOpen ascii_lowercase (codes "smtp.mail.org") 25 (codes "tcp") mail_network
            ⊎ IsGranted ascii_lowercase
                (codes "mail")
                (codes "smtp.mail.org")
                25
                (codes "tcp")
                mail_network)))
unfolding Dict.lookup text_eq
check_host-decides_example =
    check_host-decides ascii_lowercase (codes "mail") (codes "smtp.mail.org") 25 (codes "tcp")
      mail_network (refl, (refl, (refl, tt))) (refl, (refl, tt)) (refl, tt)
