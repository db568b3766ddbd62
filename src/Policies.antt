-- ===== src/Policies.antt =====
-- The network policy of the panel (backend/internal/api/network_policy.go).
pub mod Normalize
pub mod Handlers
pub mod Texts
pub mod Settled
pub mod History
