-- ===== src/Gate.antt =====
-- The gate between an MCP client and its server: packages/cli/src/stream-gate.js.
pub mod Json
pub mod Action
pub mod Fragments
pub mod Inbound
pub mod Outbound
