-- ===== src/Agent.antt =====
-- How a run of an agent ends (agent/agent.go).
pub mod RunState
pub mod Outcome
pub mod Recovered
mod Tests
