-- ===== src/Webhook.antt =====
-- Calls between services: webhook signatures (common/webhook) and the internal token (common/guards).
pub mod Text
pub mod Service
pub mod Guards
pub mod Decimal
pub mod Signing
mod Examples
