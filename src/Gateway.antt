-- ===== src/Gateway.antt =====
-- The HTTP gateway of internal/gateway.
pub mod Request
pub mod Matching
pub mod Conditions
pub mod Proxy
pub mod Payment
pub mod Handler
pub mod Server
