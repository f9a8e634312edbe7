-- ===== src/Linear.antt =====
-- The Linear plugin: how it accepts a closeout, and its outbox.
pub mod Acceptance
pub mod Outbox
