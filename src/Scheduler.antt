-- ===== src/Scheduler.antt =====
-- The scheduler (modules/scheduler) and the utilities that it uses (common/utils).
pub mod Model
pub mod Cron
pub mod Timezone
pub mod Validation
pub mod Outside
pub mod Responses
pub mod Service
pub mod Execution
pub mod Outcomes
pub mod Queueing
pub mod Errors
pub mod Cancelling
pub mod Surviving
pub mod Repeated
pub mod Workers
pub mod Recorded
mod Stored
mod Kept
mod Runs
mod Examples
