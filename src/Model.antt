-- ===== src/Model.antt =====
-- The data model of the panel (backend/internal/model).
mod Entities
mod Clients
mod Panel
pub use Entities.*
unfoldable pub use Clients.*
pub use Panel.*
