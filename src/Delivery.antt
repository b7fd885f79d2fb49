-- ===== src/Delivery.antt =====
-- The delivery of the outbox: the workers of `ProcessOutbox` in internal/service/access.go.
pub mod Dispatch
pub mod World
pub mod Updates
pub mod Soundness
pub mod Transactions
pub mod Endings
pub mod Calls
pub mod Phases
pub mod Worker
pub mod Retries
pub mod Deliveries
