-- ===== src/Trust.antt =====
-- crates/secureflow-knowledge/src/catalog_trust: the offline acceptance of a signed catalog.
pub mod Errors
pub mod Map
pub mod Json
pub mod Wire
pub mod Types
pub mod Policy
pub mod Checks
pub mod Examine
pub mod Session
pub mod Import
pub mod Receipts
pub mod Install
pub mod Store
pub mod Operations
pub mod History
