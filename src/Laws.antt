-- ===== src/Laws.antt =====
-- Theorems about the single operations of the components.
pub mod TwoPhase
pub mod Verdict
pub mod Startup
pub mod Pending
pub mod Healthy
pub mod Suppressed
pub mod Policy
pub mod Registries
pub mod Queries
pub mod Feed
pub mod Announce
pub mod Recovery
pub mod Departed
pub mod Newest
pub mod Convergence
