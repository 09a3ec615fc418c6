-- ===== src/Authority.antt =====
-- Delegated authority (packages/core/src/authority).
pub mod Pattern
pub mod Budget
pub mod Obligations
pub mod Grant
pub mod Revocation
