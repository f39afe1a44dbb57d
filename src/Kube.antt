-- ===== src/Kube.antt =====
-- The Kubernetes objects that the operator builds and reads: the fields of the API's own types that
-- the source sets or tests. What the source only copies is carried as text (`Opaque`).
mod Meta
mod Pod
mod Objects
pub use Meta.*
pub use Pod.*
pub use Objects.*
