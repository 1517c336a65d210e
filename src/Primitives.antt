-- ===== src/Primitives.antt =====
-- The primitives that every process shares: packages/shared-primitives/src.
pub mod Outcome
pub mod Phone
pub mod Contact
pub mod Aggregator
mod Tests
