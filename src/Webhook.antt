-- ===== src/Webhook.antt =====
-- internal/webhook/v1alpha1: defaulting and validation of admission requests.
mod Common
mod GameServers
mod Fleets
pub mod Admission
pub mod Defaults
pub mod Exposure
pub mod Hardening
pub mod FleetAdmission
unfoldable pub use Common.*
unfoldable pub use GameServers.*
unfoldable pub use Fleets.*
