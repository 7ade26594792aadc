-- ===== src/Mcp.antt =====
-- crates/nits-mcp: the server that agents talk to.
pub mod Checkpoint
