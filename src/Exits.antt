-- ===== src/Exits.antt =====
-- Landing exits, the SOCKS5 servers that relay routes lead to
-- (backend/internal/api/landing_exits.go).
mod Normalize
mod Handlers
mod Bulk
pub mod Usable
pub mod History
unfoldable pub use Normalize.*
unfoldable pub use Handlers.*
unfoldable pub use Bulk.*
