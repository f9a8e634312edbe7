-- ===== src/Broker.antt =====
-- sidecars/browser-broker/session_policy.py: the handoff broker.
pub mod Types
pub mod Exec
pub mod Policy
pub mod Terminal
pub mod Handoff
pub mod Viewer
pub mod Reload
pub mod Steps
pub mod Invariant
pub mod Operation
pub mod Safety
pub mod Revocation
pub mod Access
pub mod Fence
pub mod Outcomes
pub mod Mints
pub mod Examples
