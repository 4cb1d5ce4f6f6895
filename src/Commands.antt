-- ===== src/Commands.antt =====
-- The programs under cmd.
pub mod MockFacilitator
pub mod TestClient
pub mod Manager
