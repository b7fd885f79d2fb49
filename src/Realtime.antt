-- ===== src/Realtime.antt =====
-- internal/realtime/hub.go: the fan-out of changes to the open streams of browsers.
pub mod Hub
pub mod Channels
pub mod Streams
pub mod Limits
pub mod Arrivals
