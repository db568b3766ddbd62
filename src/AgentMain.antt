-- ===== src/AgentMain.antt =====
-- The agent program on a server (agent/cmd/agent/main.go and traffic.go): the loop, the change of
-- the configuration, and the counters that it reports.
pub mod Apply
pub mod Loop
pub mod Careful
pub mod Confirmed
pub mod Settled
pub mod Counters
pub mod Reported
