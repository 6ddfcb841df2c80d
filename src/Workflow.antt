-- ===== src/Workflow.antt =====
-- The graph of a workflow's steps, as its definition is checked when a client sends it.
pub mod Graph
pub mod Walks
pub mod Room
pub mod Search
pub mod Steps
pub mod Issues
pub mod Validation
pub mod Roots
pub mod Schedules
pub mod Starting
