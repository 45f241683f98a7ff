-- ===== src/Mcp.antt =====
-- The MCP adapters of crates/keylix-mcp: the server's verifier (src/server.rs), and the client and its
-- transport (src/lib.rs).
pub mod Server
pub mod Client
pub mod Transport
