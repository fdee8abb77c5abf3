-- ===== src/Migrations.antt =====
-- The database schema and its migrations (modules/app/migrations).
pub mod Schema
pub mod Initial
pub mod Changes
pub mod Rollback
pub mod Entities
pub mod Fit
mod Examples
