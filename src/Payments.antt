-- ===== src/Payments.antt =====
-- The payments of the MCP server (services/mcp-server/src): amounts, the guard on URLs, and the
-- payment service.
pub mod Money
pub mod Guard
pub mod Types
pub mod Service
mod Tests
