-- ===== src/Messages/Concurrent.antt =====
-- Several pods and users at once: the operations of scheduled-messages.service.ts cut at each `await` of an outside
-- call, in any order.
pub mod Tasks
pub mod System
pub mod Bound
pub mod Accounted
pub mod Alone
mod Examples
