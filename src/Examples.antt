-- ===== src/Examples.antt =====
-- Concrete inputs at which the theorems apply.
pub mod LabelExamples
pub mod RoleExamples
pub mod ApprovalExamples
pub mod AccessExamples
pub mod ProxyExamples
pub mod DeliveryExamples
pub mod RealtimeExamples
