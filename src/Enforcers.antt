-- ===== src/Enforcers.antt =====
-- The capability types of abi/src/security_rfc/capabilities.rs that the enforcers of a plugin's access
-- read, and what the enforcers share.
pub mod Filesystem
pub mod Paths
pub mod Network
pub mod Hosts
pub mod Access
use skylet.Prelude.{ℕ, Bool, true, false, ◌||◌, ◌==◌}

pub data FilesystemAccessMode : Type 0 where
  read read_write write_only append : FilesystemAccessMode

abbrev pub mode_index : FilesystemAccessMode → ℕ
mode_index read = 0
mode_index read_write = 1
mode_index write_only = 2
mode_index append = 3

pub data CapabilityStatus : Type 0 where
  pending approved denied auto_approved revoked : CapabilityStatus

abbrev pub status_index : CapabilityStatus → ℕ
status_index pending = 0
status_index approved = 1
status_index denied = 2
status_index auto_approved = 3
status_index revoked = 4

-- Whether an entry counts.
unfoldable pub is_granted : CapabilityStatus → Bool
is_granted s =
    (status_index s == status_index approved) || (status_index s == status_index auto_approved)
