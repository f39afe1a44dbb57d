-- ===== src/Server.antt =====
-- internal/controller/gameserver_controller.go
mod Edits
mod Control
pub mod Teardown
pub mod Release
pub mod Phases
pub mod Chain
pub mod Provision
pub mod InPlace
unfoldable pub use Edits.*
unfoldable pub use Control.*
