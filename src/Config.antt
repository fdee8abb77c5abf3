-- ===== src/Config.antt =====
-- Configuration: environment variables, Redis, the database, CORS, and the validators of common.
pub mod Redis
pub mod Environment
pub mod Origins
pub mod Instants
pub mod Offsets
pub mod Sentinels
pub mod Clients
pub mod Probe
pub mod Boot
pub mod Shutdown
mod Examples
