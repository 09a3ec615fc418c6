-- ===== src/Engine.antt =====
-- The policy engine (packages/core/src/engine).
pub mod Glob
pub mod Pattern
pub mod Policy
pub mod Rules
pub mod Evaluate
pub mod Migration
