-- ===== src/Security/Roles.antt =====
-- The roles of plugins in abi/src/security.rs, and what each may do.
use skylet.Prelude.{Bool, true, false, if◌then◌else◌}
use skylet.Prelude.Texts.{Text, text_eq, codes}

pub data PluginRole : Type 0 where
  no_role viewer editor admin system : PluginRole

abbrev pub can_read : PluginRole → Bool
can_read no_role = false
can_read _ = true

abbrev pub can_write : PluginRole → Bool
can_write editor = true
can_write admin = true
can_write system = true
can_write _ = false

abbrev pub can_admin : PluginRole → Bool
can_admin admin = true
can_admin system = true
can_admin _ = false

abbrev pub can_system : PluginRole → Bool
can_system system = true
can_system _ = false

pub record PluginPermissions : Type 0 where
  pub read_config : Bool
  pub write_config : Bool
  pub read_secrets : Bool
  pub write_secrets : Bool
  pub access_network : Bool
  pub manage_plugins : Bool
  pub access_audit_logs : Bool
  pub system_admin : Bool

abbrev no_permissions : PluginPermissions
no_permissions = record {
  read_config = false;
  write_config = false;
  read_secrets = false;
  write_secrets = false;
  access_network = false;
  manage_plugins = false;
  access_audit_logs = false;
  system_admin = false;
}

abbrev admin_permissions : PluginPermissions
admin_permissions = record {
  read_config = true;
  write_config = true;
  read_secrets = true;
  write_secrets = true;
  access_network = true;
  manage_plugins = true;
  access_audit_logs = true;
  system_admin = false;
}

unfoldable pub from_role : PluginRole → PluginPermissions
from_role no_role = no_permissions
from_role viewer = record no_permissions { read_config = true }
from_role editor = record no_permissions {
  read_config = true;
  write_config = true;
  access_network = true;
}
from_role admin = admin_permissions
from_role system = record admin_permissions { system_admin = true }

unfoldable pub check_name : Text → PluginPermissions → Bool
check_name name p =
    if text_eq name (codes "read_config")
    then p.read_config
    else if text_eq name (codes "write_config")
    then p.write_config
    else if text_eq name (codes "read_secrets")
    then p.read_secrets
    else if text_eq name (codes "write_secrets")
    then p.write_secrets
    else if text_eq name (codes "access_network")
    then p.access_network
    else if text_eq name (codes "manage_plugins")
    then p.manage_plugins
    else if text_eq name (codes "access_audit_logs")
    then p.access_audit_logs
    else if text_eq name (codes "system_admin")
    then p.system_admin
    else false
