-- ===== src/Orchestrator.antt =====
-- crates/secureflow-orchestrator: the plan that is derived from a run manifest and from retained
-- evidence, and the checks of a plan that is read back.
pub mod Types
pub mod Expected
pub mod Validate
pub mod Derive
