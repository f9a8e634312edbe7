-- ===== src/Proxy.antt =====
-- sidecars/rest-lock-proxy/lock_proxy.py: the agent's requests to its browser, which a takeover fences off.
pub mod Handler
pub mod Gate
pub mod Examples
