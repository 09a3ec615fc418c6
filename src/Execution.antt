-- ===== src/Execution.antt =====
-- Execution under a decision (packages/core/src/execution).
pub mod Lease
pub mod Receipt
pub mod Verification
