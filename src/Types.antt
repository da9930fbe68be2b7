-- ===== src/Types.antt =====
-- The data that nodes keep and exchange: dstate/src/types/{node,envelope,config,errors,
-- sync_message}.rs, a reading of the clock of traits/clock.rs and the urgency of traits/state.rs.
pub mod Generation
pub mod Config
pub mod Strategy
pub mod Envelope
pub mod Message
pub mod Errors
