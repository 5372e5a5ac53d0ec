-- ===== src/Examples.antt =====
-- Sample values of the program's types, and the theorems of the other modules at them.
pub mod Versions
pub mod Graphs
pub mod Resolutions
pub mod Services
pub mod Access
pub mod Approvals
pub mod Loads
pub mod Trails
pub mod Plugins
pub mod Sandboxes
pub mod Enforcement
pub mod Arenas
pub mod Clusters
