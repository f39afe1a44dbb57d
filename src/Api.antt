-- ===== src/Api.antt =====
-- The operator's own resources (api/v1alpha1). Types, names and constants follow the Go files.
mod ServerTypes
mod FleetTypes
mod BackupTypes
pub mod Schema
pub use ServerTypes.*
pub use FleetTypes.*
pub use BackupTypes.*
