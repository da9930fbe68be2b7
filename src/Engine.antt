-- ===== src/Engine.antt =====
-- `DistributedStateEngine` of dstate/src/engine.rs. A method takes a reading of the clock and
-- returns the engine that it leaves with the actions for the host; `none` is a panic.
pub mod State
pub mod Outbound
pub mod Snapshot
pub mod Delta
pub mod Inbound
pub mod Cluster
pub mod Query
pub mod Events
pub mod Shards
pub mod Valid
pub mod Keeps
pub mod Invariant
