-- ===== src/Actor.antt =====
-- `StateActor` of dstate-dactor/src: its messages, its state, how it routes the actions of the
-- engine to its peers, and its life among other tasks.
pub mod Messages
pub mod Routing
pub mod Handlers
pub mod Life
pub mod Refines
pub mod Recipients
pub mod Reach
pub mod Safety
pub mod Delivery
