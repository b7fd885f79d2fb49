-- ===== src/Approval.antt =====
-- Approval of access requests: internal/approvalflow, and the parts of internal/service that walk
-- through the levels of a workflow.
pub mod Model
pub mod Levels
pub mod Counting
pub mod Pending
