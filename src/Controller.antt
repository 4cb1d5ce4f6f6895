-- ===== src/Controller.antt =====
-- internal/controller: what an X402Route resource becomes, and what it does to its Ingress.
pub mod Api
pub mod Validation
pub mod PathMatch
pub mod Ingresses
pub mod Compile
pub mod Reconciler
