-- ===== src/Manager.antt =====
-- cmd/main.go, and the functions that register the controllers and the webhooks with the manager.
mod Options
mod Setup
pub mod Boot
pub mod Http
pub use Options.*
unfoldable pub use Setup.*
