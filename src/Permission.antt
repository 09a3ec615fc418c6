-- ===== src/Permission.antt =====
-- The permission gateway (packages/core/src/permission).
pub mod Call
pub mod Normalizer
pub mod Classifier
pub mod Gateway
