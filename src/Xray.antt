-- ===== src/Xray.antt =====
-- The Xray configuration (backend/internal/xray).
pub mod Credentials
pub mod Users
pub mod Entitled
pub mod Policy
pub mod Inbounds
pub mod RelayEntries
pub mod Config
pub mod StatsPort
pub mod Among
pub mod Routing
pub mod Traces
pub mod InForce
