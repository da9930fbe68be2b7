-- ===== src/Examples.antt =====
-- Concrete nodes of a cluster and the theorems applied to them.
pub mod Nodes
pub mod Runs
pub mod Exchanges
pub mod Operations
pub mod Components
pub mod Actors
pub mod Network
pub mod Clusters
