-- ===== src/Shard.antt =====
-- `ShardCore` of dstate/src/core/shard_core.rs: the state that this node owns and the views of all
-- nodes. A method takes a reading of the clock and returns the shard that it leaves; `none` is a
-- panic. `u64` counters wrap around.
pub mod State
pub mod Mutation
pub mod Inbound
pub mod Membership
pub mod Query
pub mod Each
pub mod Frame
