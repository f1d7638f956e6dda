-- ===== src/Workflow.antt =====
-- Durable workflow runs: their records and local store (platform/core/state/core/runs.go), and the
-- runtime that executes them (platform/workflow/runtime/workflow_runtime.go).
pub mod Runs
pub mod World
pub mod Keeps
pub mod Soundness
pub mod Step
pub mod Attempts
pub mod Resume
pub mod Control
pub mod Completion
pub mod History
pub mod Budget
pub mod Cancel
mod Tests
