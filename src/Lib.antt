-- ===== src/Lib.antt =====
-- dstate replicates a state of each node of a cluster to the others. Every node owns one state, keeps a
-- view of the state of every peer, and tells the peers of its changes by snapshots, by deltas of one
-- generation, or by a change feed of generations that the peers then pull. The crate `dstate` holds the
-- protocol as an engine without I/O: each call changes the engine and returns the actions that its host
-- carries out.
--
-- The parts, with the files of the repository that they model:
-- - Types: dstate/src/types (`Generation` and its order, configurations, envelopes, messages, errors),
--   with `SyncUrgency`, `PersistError` and the readings of `Clock` of dstate/src/traits.
-- - HashMap and ViewMap: `std::collections::HashMap`, and `ViewMap` of dstate/src/core/view_map.rs.
-- - Shard: `ShardCore` of dstate/src/core/shard_core.rs, by mutations, inbound messages, membership and
--   queries.
-- - SyncLogic, ChangeFeed, Versioning, Lifecycle, Startup, Accumulator, Diagnostics: the modules of those
--   names in dstate/src/core, `Startup` being persistence_startup_logic.rs and `Diagnostics.Health` the
--   reports of diagnostics.rs.
-- - Registry: `StateRegistry` of dstate/src/registry.rs.
-- - Engine: `DistributedStateEngine` of dstate/src/engine.rs. `Engine.Outbound` has what is sent,
--   `Engine.Snapshot`, `Engine.Delta` and `Engine.Inbound` what is received, `Engine.Cluster` joins and
--   departures, `Engine.Query` queries. `Engine.Events` puts the calls of one engine in sequence.
-- - Actor: `StateActor` of dstate-dactor/src/state_actor.rs with the messages of messages.rs.
--   `Actor.Routing` routes the actions of the engine, `Actor.Handlers` has one branch for each handler,
--   and `Actor.Life` puts messages, registrations, the timers of delayed sends and the stop in any order.
-- - Integration: dstate-integration/src. `Integration.Interceptor` is interceptor.rs,
--   `Integration.Transport` transport.rs; cluster.rs is `Integration.Cluster` (the state, schedules,
--   removals), `Integration.Routing` (calls of the engines and their actions), `Integration.Tick` (the
--   operations) and `Integration.TestCluster`. The other modules of the folder prove.
-- - TestSupport: `TestClock` of dstate/src/traits/clock.rs, and the storages and states of
--   dstate/src/test_support. BTreeMap: the nodes of a cluster in the order of their names.
-- - Engine.Valid, Engine.Keeps, Engine.Invariant: the well-formedness of the views under each
--   call. Replica: the views of a node over whole runs. Laws: single operations and exchanges of two
--   nodes. Examples: concrete nodes.
-- The engine calls the core modules in the order of the source: a mutation goes through the shard, the
-- sync logic, the change feed and the diagnostics; a message through the lifecycle logic, the versioning
-- logic, the shard and the diagnostics.
--
-- How the code is read:
-- - A method of `&mut self` is a function from the old value to the new one and its result. `ViewMap` is
--   written by one actor only, so its two levels of `ArcSwap` are one map. A `HashMap` is a list with one
--   entry for a key; a `HashSet` is a map into the unit type.
-- - A call reads the clock once: a `Clock` is the reading, an instant in nanoseconds and a Unix time. Two
--   reads within one call of the source give the same reading here.
-- - `u64` and `u32` increments wrap, as in a release build; a debug build panics there. Counts of peers
--   are `u32`. Sizes of lists are not bounded.
-- - `none` stands for a panic: `expect` on the own view, `assert_eq!` at a commit. User functions (the
--   mutation, the projections, the codec, the delta applier, the migration) are functions that return.
-- - `NodeId`, `TypeId` and other names are texts; bytes are lists of numbers, which only the codec reads.
-- - A sender to a peer is any type; a handler returns the calls that it makes and the tasks that it
--   spawns. A handler takes the lock of the registry once, so it is one step.
-- - An interceptor is a value of its own type with its method, so it may keep a state. The encoding of
--   `bincode`, and the comparison of a hash with an `f64` rate, are parameters. The engines of a cluster
--   read the clock of the cluster.
-- - Log events have no part in the state and are left out.
-- Loops are recursion on the list that they run over. Fuel is what `decimal`, the text of a number, has:
-- 20 digits are enough for every `u64`. The loop of `settle_with_limit` recurs on the ticks that its
-- limit leaves.
--
-- Where a document and the code differ, the model follows the code. docs/distributed-state-test-plan.md
-- (LIFE-10) and docs/distributed-state-design.md (9.3) say that after a late `NodeLeft` the next push of the
-- live node brings its view back; the departed set of lifecycle_logic.rs refuses that push until the next
-- join. docs/integration-test-plan.md (FAULT-09) says that under `DropAndWait` a snapshot is requested; the
-- engine returns no action there.
--
-- Not modelled: `ActorRefPeerSender`, which hands a call to the actor framework; the cluster events and
-- timer handle of dstate/src/test_support/test_runtime.rs, which call closures of a host; the actor
-- messages of dstate/src/messages; the examples; the storage behind `StatePersistence`, of which the
-- startup logic sees the result only; `SystemClock`.
pub mod Base
pub mod Types
pub mod HashMap
pub mod BTreeMap
pub mod ViewMap
pub mod Shard
pub mod SyncLogic
pub mod ChangeFeed
pub mod Versioning
pub mod Lifecycle
pub mod Startup
pub mod Accumulator
pub mod Diagnostics
pub mod Registry
pub mod Engine
pub mod Replica
pub mod Laws
pub mod Actor
pub mod TestSupport
pub mod Integration
pub mod Examples
