-- ===== src/Cluster/Footprint.antt =====
-- What calls an action makes.
mod Calls
mod Requests
pub use Calls.*
pub use Requests.*
