-- ===== src/Reconciler.antt =====
-- internal/reconciler: the builders of the child objects, and the edits of the status.
mod Services
mod Workloads
mod BackupJobs
mod Conditions
pub mod OneCondition
pub mod Wiring
pub mod BackupMounts
pub mod Environment
pub mod Storage
pub mod ConditionMap
unfoldable pub use Services.*
unfoldable pub use Workloads.*
unfoldable pub use BackupJobs.*
unfoldable pub use Conditions.*
