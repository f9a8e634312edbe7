-- ===== src/Origin.antt =====
-- sidecars/browser-broker/origin.py and origin_routing.py: the routes of a browser and its takeover lock.
pub mod Principals
pub mod Checks
pub mod Policy
pub mod Rows
pub mod PolicyFile
pub mod Routing
pub mod Resources
pub mod ResourceFile
pub mod Rollout
pub mod Settings
pub mod Lock
pub mod Lifecycle
pub mod Examples
