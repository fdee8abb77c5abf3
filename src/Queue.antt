-- ===== src/Queue.antt =====
-- The queue service (modules/queues).
pub mod Model
pub mod Service
pub mod Removal
pub mod Defaults
pub mod Stats
