-- ===== src/Reliability.antt =====
-- Reports on reliability: packages/core/src/crashlab and packages/core/src/release.
mod Counting
pub mod Scorecard
pub mod Release
