-- ===== src/Gateway/Payment.antt =====
-- internal/gateway/payment.go, in the order of its parts.
pub mod Networks
pub mod Units
pub mod Requirements
pub mod Facilitator
