-- ===== src/Substrate.antt =====
-- crates/lmml-substrate: the records of model lineages, artifacts and runtimes, their validation and
-- their append-only storage.
pub mod Json
pub mod Types
pub mod Errors
pub mod Identifiers
pub mod Disk
pub mod Persist
pub mod Platform
pub mod Canonical
pub mod Checks
pub mod Artifacts
pub mod Training
pub mod Successors
pub mod Leases
pub mod Agreement
pub mod Admission
pub mod Approval
mod Tests
