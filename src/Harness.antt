-- ===== src/Harness.antt =====
-- internal/harness: one module for each of its files.
pub mod Settings
pub mod Requests
pub mod Guardrails
pub mod Permissions
pub mod Mcp
pub mod CustomTools
pub mod Approvals
pub mod Messages
pub mod Compaction
pub mod Model
pub mod Agent
pub mod Turn
pub mod Thread
pub mod Paths
