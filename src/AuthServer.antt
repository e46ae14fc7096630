-- ===== src/AuthServer.antt =====
-- The auth server crate (auth-server/src).
pub mod Limiter
pub mod Pagination
pub mod Security
pub mod Bypass
pub mod FlowTables
