-- ===== src/Access.antt =====
-- What the operator may ask of the API server, and what it asks.
mod Role
mod FleetQuiet
mod FleetCalls
mod ServerCalls
mod BackupCalls
pub mod Passes
pub mod Waits
pub mod Waiting
pub mod Isolation
pub mod Guarded
pub use Role.*
