-- ===== src/Subscriptions.antt =====
-- Subscriptions and share links (backend/internal/api/subscription.go, subscription_formats.go and
-- singbox.go).
pub mod Formats
pub mod Snapshot
pub mod Names
pub mod Links
pub mod SingBox
pub mod Clash
pub mod Handlers
pub mod Escaping
pub mod Unique
pub mod Resolved
pub mod Admitted
