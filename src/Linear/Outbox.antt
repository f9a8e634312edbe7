-- ===== src/Linear/Outbox.antt =====
-- The outbox of store.py of the Linear plugin.
pub mod Payload
pub mod Table
pub mod Holding
pub mod Operations
pub mod Fenced
pub mod Prompts
pub mod Timing
pub mod Due
pub mod Order
pub mod Effects
pub mod Admission
pub mod Withdrawal
pub mod Marker
pub mod Blocking
pub mod Undo
pub mod Examples
