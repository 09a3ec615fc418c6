-- ===== src/Tests.antt =====
-- Concrete runs of the theorems.
mod Fixtures
mod Patterns
mod Budgets
mod Grants
mod Revocations
mod Rules
mod Calls
mod Leases
mod Effects
mod Gate
mod Evidence
mod Migration
mod Scorecard
mod Releases
mod Traces
mod Delegations
