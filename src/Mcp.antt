-- ===== src/Mcp.antt =====
-- Calls of MCP servers by the steps of a workflow run: platform/workflow/runtime, in
-- workflow_mcp_runtime.go and workflow_retry_strategies.go.
pub mod Glob
pub mod Retry
pub mod Policy
pub mod Calls
pub mod Tests
