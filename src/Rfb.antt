-- ===== src/Rfb.antt =====
-- sidecars/browser-broker/rfb_filter.py: the WebSocket and RFB filter of the viewer's connection.
pub mod Examples
pub mod Bytes
pub mod Frames
pub mod Observe
pub mod Display
pub mod Cutting
pub mod RoundTrip
