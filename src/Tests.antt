-- ===== src/Tests.antt =====
-- The tests of the development: concrete inputs, and the theorems applied to them.
mod Samples
mod Plans
mod Run
mod Orchestrator
mod Case
mod Scope
mod Catalog
mod Blank
mod Wire
mod Trust
mod Install
