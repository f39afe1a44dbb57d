-- ===== src/Backup.antt =====
-- internal/controller/gameserverbackup_controller.go
mod Values
mod Resolve
mod Finalize
mod Control
pub mod Answers
pub mod Securing
pub mod LastCopy
pub mod LastJob
pub mod Release
pub mod Accepted
unfoldable pub use Values.*
unfoldable pub use Resolve.*
unfoldable pub use Finalize.*
unfoldable pub use Control.*
