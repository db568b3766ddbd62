-- ===== src/Clients.antt =====
-- Clients (backend/internal/api/clients.go): validation, the handlers, and their theorems.
mod Validate
mod Handlers
pub mod Bindings
unfoldable pub use Validate.*
unfoldable pub use Handlers.*
