-- ===== src/Router.antt =====
-- crates/lmml-router: the router of the LAN. The records of src/lib.rs stand in Types.
pub mod Types
pub mod Config
pub mod Specs
pub mod Discovery
pub mod Counters
pub mod Selection
pub mod Attested
pub mod Access
pub mod Proxy
pub mod Aggregate
mod Tests
