-- ===== src/Enforcers/Filesystem.antt =====
-- abi/src/security_rfc/filesystem.rs: which paths a plugin may open. Paths are those of Unix.
use skylet.Prelude.{
  Bool, true, false, ◌&&◌, ◌||◌, Option, none, some, List, [], ◌∷◌, ◌++◌, ◌==◌, if◌then◌else◌,
  Result, ok, err,
}
use skylet.Prelude.Lists.{any}
use skylet.Prelude.Texts.{Text, text_eq, codes, starts_with, ends_with, strip_prefix, strip_suffix}
use skylet.Prelude.Dict
use skylet.Prelude.Dict.{Dict}
use skylet.Enforcers.{
  FilesystemAccessMode, CapabilityStatus, read, read_write, write_only, append, mode_index,
  is_granted,
}

pub record PathPermission : Type 0 where
  pub path : Text
  pub mode : FilesystemAccessMode
  pub status : CapabilityStatus
  pub source : Text

pub record FilesystemEnforcer : Type 0 where
  pub permissions : Dict (List PathPermission)
  pub global_read_paths : List Text
  pub vfs_mounts : Dict Text

pub data FilesystemAccessError : Type 0 where
  permission_denied : Text → Text → FilesystemAccessMode → FilesystemAccessError
  path_not_found : Text → FilesystemAccessError
  invalid_path : Text → FilesystemAccessError

abbrev pub new_filesystem : FilesystemEnforcer
new_filesystem = record {
  permissions = [];
  global_read_paths = codes "/etc/ssl/certs" ∷ codes "/usr/share/zoneinfo" ∷ [];
  vfs_mounts =
      (codes "plugin-data", codes "./data/plugins")
      ∷ (codes "shared-data", codes "./data/shared")
      ∷ (codes "config", codes "./config")
      ∷ (codes "cache", codes "./cache")
      ∷ (codes "logs", codes "./logs")
      ∷ (codes "temp", codes "./tmp")
      ∷ [];
}

unfoldable pub register_permissions :
    Text → List PathPermission → FilesystemEnforcer → FilesystemEnforcer
register_permissions plugin_id ps e = record e {
  permissions = Dict.insert plugin_id ps e.permissions;
}

-- The permissions of a plugin, none where it has no entry.
abbrev pub permissions_of : Text → FilesystemEnforcer → List PathPermission
permissions_of plugin_id e = elim (Dict.lookup plugin_id e.permissions) [ none ↦ [] | some ps ↦ ps ]

unfoldable pub add_permission : Text → PathPermission → FilesystemEnforcer → FilesystemEnforcer
add_permission plugin_id p e = record e {
  permissions = Dict.insert plugin_id (permissions_of plugin_id e ++ p ∷ []) e.permissions;
}

unfoldable pub remove_plugin : Text → FilesystemEnforcer → FilesystemEnforcer
remove_plugin plugin_id e = record e { permissions = Dict.remove plugin_id e.permissions }

unfoldable pub get_permissions : Text → FilesystemEnforcer → Option (List PathPermission)
get_permissions plugin_id e = Dict.lookup plugin_id e.permissions

unfoldable pub add_vfs_mount : Text → Text → FilesystemEnforcer → FilesystemEnforcer
add_vfs_mount scheme path e = record e { vfs_mounts = Dict.insert scheme path e.vfs_mounts }

-- `find("://")`: what stands in front of the first one, and what behind.
unfoldable pub split_scheme : Text → Option (Text × Text)
unfolding strip_prefix
split_scheme [] = none
split_scheme (c ∷ s) =
    let rest = split_scheme s in
    elim (strip_prefix (codes "://") (c ∷ s)) [
      | some path ↦ some ([], path)
      | none ↦ elim rest [ none ↦ none | some (scheme, path) ↦ some (c ∷ scheme, path) ]
    ]

-- `PathBuf::join`: an absolute path replaces the other one.
unfoldable pub join_path : Text → Text → Text
unfolding ends_with
join_path mount path =
    if starts_with (codes "/") path
    then path
    else if text_eq mount [] || ends_with mount (codes "/")
    then mount ++ path
    else mount ++ (codes "/" ++ path)

unfoldable pub resolve_vfs_path : Text → FilesystemEnforcer → Text
unfolding split_scheme join_path
resolve_vfs_path uri e = elim (split_scheme uri) [
  | none ↦ uri
  | some (scheme, path) ↦ elim (Dict.lookup scheme e.vfs_mounts) [
    | none ↦ uri
    | some mount_point ↦ join_path mount_point path
  ]
]

unfoldable pub path_matches : Text → Text → Bool
unfolding strip_suffix ends_with
path_matches path pattern =
    if text_eq pattern (codes "*") then true else elim (strip_suffix (codes "/*") pattern) [
      | some prefix ↦ starts_with prefix path
      | none ↦
          if ends_with pattern (codes "/")
          then starts_with pattern path
          else if text_eq path pattern
          then true
          else elim (strip_prefix pattern path) [
            | none ↦ false
            | some rest ↦ starts_with (codes "/") rest
          ]
    ]

unfoldable pub mode_compatible : FilesystemAccessMode → FilesystemAccessMode → Bool
mode_compatible read_write _ = true
mode_compatible read read = true
mode_compatible write_only write_only = true
mode_compatible write_only append = true
mode_compatible append append = true
mode_compatible _ _ = false

unfoldable pub permits : Text → FilesystemAccessMode → FilesystemEnforcer → PathPermission → Bool
unfolding is_granted resolve_vfs_path path_matches mode_compatible
permits resolved_path requested_mode e p =
    is_granted p.status
    && (path_matches resolved_path (resolve_vfs_path p.path e)
        && mode_compatible p.mode requested_mode)

abbrev pub is_global : Text → FilesystemAccessMode → FilesystemEnforcer → Bool
is_global resolved_path requested_mode e =
    (mode_index requested_mode == mode_index read)
    && any (λ g. starts_with g resolved_path) e.global_read_paths

unfoldable pub check_access :
    Text
    → Text
    → FilesystemAccessMode
    → FilesystemEnforcer
    → Result (Unit {0}) FilesystemAccessError
unfolding permits resolve_vfs_path
check_access plugin_id path requested_mode e =
    let resolved_path = resolve_vfs_path path e in
    if is_global resolved_path requested_mode e
    then ok tt
    else elim (Dict.lookup plugin_id e.permissions) [
      | none ↦ err (permission_denied plugin_id path requested_mode)
      | some ps ↦
          if any (permits resolved_path requested_mode e) ps
          then ok tt
          else err (permission_denied plugin_id path requested_mode)
    ]
