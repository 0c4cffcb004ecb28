-- ===== src/Case.antt =====
-- crates/secureflow-case: the security case, its validation, human decisions, and the import of
-- SARIF documents.
pub mod Types
pub mod Fields
pub mod Validate
pub mod Decide
pub mod Sarif
