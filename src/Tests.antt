-- ===== src/Tests.antt =====
-- Runs of the definitions, and the theorems at concrete inputs.
mod Traversal
mod Flow
mod Access
mod Limits
mod Stores
mod Choices
mod Flows
mod Checks
mod Overlay
mod Config
mod Assertion
mod FlowTables
mod Plugins
mod Admin
