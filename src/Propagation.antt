-- ===== src/Propagation.antt =====
-- Configuration carried from one node to others (propagation/).
pub mod Plan
pub mod Preview
pub mod Apply
pub mod Target
pub mod Schedule
pub mod Reconcile
pub mod Distributed
pub mod Execute
pub mod Transaction
pub mod Manager
mod Tests
