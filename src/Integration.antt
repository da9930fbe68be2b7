-- ===== src/Integration.antt =====
-- The simulated network and cluster of dstate-integration/src, on which the integration tests run
-- the engines.
pub mod Interceptor
pub mod Transport
pub mod Delivery
pub mod Due
pub mod Pipeline
pub mod Partition
pub mod Duplication
pub mod Corruption
pub mod Cluster
pub mod Routing
pub mod Tick
pub mod Sound
pub mod Returns
pub mod Phases
pub mod Settle
pub mod Changes
pub mod Reachable
pub mod Broadcast
pub mod Rounding
pub mod Purge
pub mod TestCluster
