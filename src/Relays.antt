-- ===== src/Relays.antt =====
-- Relay routes (backend/internal/api/relays.go) and the creation of a client with a relay of its
-- own (backend/internal/api/clients.go, `createClientWithSocks5Relay`).
mod Normalize
mod Handlers
pub mod Accepted
mod FixedExit
pub mod Ports
unfoldable pub use Normalize.*
unfoldable pub use Handlers.*
unfoldable pub use FixedExit.*
