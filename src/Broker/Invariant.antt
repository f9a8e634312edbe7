-- ===== src/Broker/Invariant.antt =====
-- The invariant of the broker, kept by every section.
pub mod Session
pub mod Store
pub mod Kept
