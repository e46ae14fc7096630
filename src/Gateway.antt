-- ===== src/Gateway.antt =====
-- The gateway crate (gateway/src).
pub mod Traversal
pub mod Rules
pub mod Routing
pub mod Flow
pub mod Auth
pub mod Access
pub mod Limiter
pub mod Breaker
pub mod Cache
pub mod Selector
pub mod Config
pub mod Plugins
pub mod Admin
pub mod Overlay
pub mod Assertion
