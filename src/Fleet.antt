-- ===== src/Fleet.antt =====
-- internal/controller/gameserverfleet_controller.go
mod Values
mod Xor
mod Fnv
mod Statuses
mod Rollout
mod Lifecycle
pub mod Footprint
pub mod Deletion
pub mod Draining
pub mod Hash
pub mod Detection
pub mod Warning
pub mod OverRcon
pub mod History
pub mod Rolling
pub mod Report
pub mod SteadyState
pub mod Acceptance
pub mod Storable
unfoldable pub use Values.*
unfoldable pub use Statuses.*
unfoldable pub use Rollout.*
unfoldable pub use Lifecycle.*
