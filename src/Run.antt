-- ===== src/Run.antt =====
-- crates/secureflow-model: the run manifest, its validation, and the operations on its findings.
pub mod Errors
pub mod Kinds
pub mod Fields
pub mod Target
pub mod Engine
pub mod Location
pub mod Review
pub mod Ai
pub mod Finding
pub mod Summary
pub mod Evaluation
pub mod Unique
pub mod Manifest
pub mod Ordering
pub mod Dedup
