-- ===== src/Workflow.antt =====
-- The workflow engine that runs an accepted plan: crates/workflow-engine/src.
pub mod Journal
pub mod Graph
pub mod Engine
pub mod Eligibility
pub mod QosMapper
pub mod Runtime
pub mod Decision
