-- ===== src/AuthCore.antt =====
-- The auth-core crate (auth-core/src).
pub mod Policy
pub mod Descriptor
pub mod Flows
pub mod Risk
pub mod Sessions
