-- ===== src/Retry.antt =====
-- `RetryUtil` (common/utils/retry.util.ts).
pub mod Service
pub mod Bounds
pub mod Attempts
mod Examples
