-- ===== src/Substrate/Approval.antt =====
-- crates/lmml-substrate/src/approval.rs: signed approvals of prompt configurations, their revocation,
-- the policy of requests, and the deployment snapshots.
pub mod Types
pub mod Hex
pub mod Json
pub mod Platform
pub mod Policy
pub mod Contracts
pub mod Signing
pub mod Status
pub mod Files
pub mod Anchor
pub mod Stores
pub mod Loads
pub mod Tests
