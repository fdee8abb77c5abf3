-- ===== src/Http.antt =====
-- The HTTP controllers behind their guards.
mod Guarded
mod Messages
mod Jobs
mod Filter
mod Pipe
mod Logging
mod Access
mod Routes
mod Examples
