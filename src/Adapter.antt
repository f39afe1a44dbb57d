-- ===== src/Adapter.antt =====
-- internal/adapter: the interface of a game and the registry of the games.
mod Interface
mod Minecraft
unfoldable pub use Interface.*
unfoldable pub use Minecraft.*
