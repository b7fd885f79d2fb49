-- ===== src/Proxy.antt =====
-- internal/sessionproxy: the Redis proxy, which reads the protocol of both sides.
pub mod Bytes
pub mod Framing
pub mod Frames
pub mod Screening
pub mod Serving
pub mod Readings
pub mod Admission
pub mod Settling
pub mod Exchange
pub mod Guarded
pub mod Operations
pub mod Audited
pub mod Rounds
