-- ===== src/Nodes.antt =====
-- Nodes, the inbounds of a server (backend/internal/api/nodes.go).
mod Normalize
mod Handlers
pub mod Accepted
pub mod Ports
unfoldable pub use Normalize.*
unfoldable pub use Handlers.*
