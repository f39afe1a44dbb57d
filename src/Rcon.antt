-- ===== src/Rcon.antt =====
-- internal/rcon/rcon.go
mod Packets
mod Session
pub mod RoundTrip
pub mod Login
pub mod Framing
unfoldable pub use Packets.*
unfoldable pub use Session.*
