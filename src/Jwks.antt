-- ===== src/Jwks.antt =====
-- The keys that verify tokens (modules/jwks) and the guard that uses them (modules/auth).
pub mod Model
pub mod Service
pub mod Keys
pub mod Startup
pub mod Reload
pub mod Guard
pub mod Access
pub mod Lifecycle
pub mod Examples
