-- ===== src/Mcp.antt =====
-- pkg/mcp: the clients of an MCP server.
pub mod Client
pub mod Sse
pub mod Http
pub mod Stdio
