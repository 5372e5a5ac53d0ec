-- ===== src/Security.antt =====
-- abi/src/security.rs: the checks that the plugin interface makes. The children model its parts:
-- the sandbox, the validation of input, the capacity, and the credentials of plugins.
pub mod Sandbox
pub mod Validation
pub mod Capacity
pub mod Roles
pub mod Credentials
pub mod Renewal
pub mod Confinement
pub mod Accepted
pub mod Rotation
pub mod Grace
use skylet.Prelude.Texts.{Text}

pub data SecurityError : Type 0 where
  null_pointer input_too_long invalid_utf8 pointer_validation_failed invalid_context_signature
        plugin_capacity_exceeded no_remote_host_available authentication_failed permission_denied :
      SecurityError
  secret_not_found : Text → SecurityError
  rotation_failed : Text → SecurityError
