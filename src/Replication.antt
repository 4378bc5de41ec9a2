-- ===== src/Replication.antt =====
-- The replicated-state layer (replication/).
pub mod Error
pub mod Operation
pub mod Fsm
pub mod Snapshot
pub mod Node
pub mod Authority
pub mod Peers
pub mod Tests
mod NodeTests
mod WaitTests
mod StartTests
