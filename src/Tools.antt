-- ===== src/Tools.antt =====
-- cmd/remotehands-mcp/main.go, mcptools and mcputils: the tools that an agent calls, as requests to a
-- server.
pub mod Connection
pub mod Ops
pub mod Calls
pub mod DirectOps
pub mod Handlers
pub mod Registered
pub mod Requests
pub mod Written
pub mod Agent
pub mod Coercion
