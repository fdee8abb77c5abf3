-- ===== src/Monitoring.antt =====
-- Metrics and health (modules/monitoring, modules/health).
pub mod Model
pub mod Metrics
pub mod Health
pub mod Controller
pub mod Queues
pub mod Probes
