-- ===== src/Grpc.antt =====
-- The gRPC API (modules/grpc).
pub mod Model
pub mod Service
pub mod Codes
pub mod Requests
pub mod Wire
pub mod Reports
mod Examples
