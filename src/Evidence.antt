-- ===== src/Evidence.antt =====
-- The evidence of decisions and effects: packages/core/src/protocol and packages/core/src/evidence.
pub mod Event
pub mod Recorder
pub mod Trace
