-- ===== src/Gateway.antt =====
-- crates/lmml-gateway: the gateway that exposes an approved backend.
pub mod Store
pub mod Loaded
pub mod Verified
pub mod Admission
pub mod Handlers
pub mod Served
pub mod Tests
