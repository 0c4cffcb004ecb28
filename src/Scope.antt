-- ===== src/Scope.antt =====
-- crates/secureflow-web/src/scope.rs: the sealed scope of a web review.
pub mod Types
pub mod Addresses
pub mod Validate
pub mod Seal
pub mod Laws
