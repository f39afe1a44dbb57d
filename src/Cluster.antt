-- ===== src/Cluster.antt =====
-- The client (sigs.k8s.io/controller-runtime) and the result of a reconciliation.
mod Interface
mod Actions
mod Outcomes
mod Counting
pub mod Footprint
pub use Interface.{
  ApiError, not_found, conflict, other_error, Response, ok, err, Call, Log, Api, Response-cases,
}
pub use Actions.*
pub use Outcomes.*
pub use Counting.*
