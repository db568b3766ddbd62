-- ===== src/Tests.antt =====
-- Runs of the operations on a small panel, and the theorems at that panel.
pub mod Data
mod TrafficRuns
mod ClientRuns
mod PortRuns
mod PanelRuns
mod ExitRuns
mod VersionRuns
mod XrayRuns
mod PolicyRuns
mod SubscriptionRuns
mod UpgradeRuns
mod SessionRuns
mod AgentRuns
