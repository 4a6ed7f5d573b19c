-- ===== src/Gateway.antt =====
-- The MCP gateway: apps/mcp-gateway.
pub mod RateLimit
pub mod Tools
