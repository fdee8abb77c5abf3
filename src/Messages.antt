-- ===== src/Messages.antt =====
-- The scheduled-messages component (modules/scheduled-messages).
pub mod Transient
pub mod Model
pub mod Service
pub mod Laws
pub mod Ownership
pub mod Window
pub mod Delivery
pub mod Sending
pub mod Claims
pub mod Lock
pub mod Settled
pub mod Retries
pub mod Stuck
pub mod Client
pub mod Memory
pub mod Progress
pub mod Concurrent
mod Available
pub mod Examples
