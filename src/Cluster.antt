-- ===== src/Cluster.antt =====
-- Clusters of nodes (cluster/).
pub mod Identity
pub mod Pairing
pub mod Security
pub mod Routing
mod Tests
