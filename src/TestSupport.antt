-- ===== src/TestSupport.antt =====
-- The time source of dstate/src/traits/clock.rs for tests, and what dstate/src/test_support keeps.
pub mod Clock
pub mod Persistence
pub mod States
