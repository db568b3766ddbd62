-- ===== src/Panel.antt =====
-- The panel as a whole: what every API request keeps.
pub mod Links
pub mod ClientLinks
pub mod NodeLinks
pub mod RelayLinks
pub mod TrafficLinks
pub mod Router
pub mod Interface
pub mod DispatchClients
pub mod DispatchPlaces
pub mod Dispatch
pub mod HostedClients
pub mod HostedRelays
pub mod Hosted
pub mod Invariants
