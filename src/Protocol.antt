-- ===== src/Protocol.antt =====
-- crates/postgres-mcp-core/src/protocol.rs: the version-1 envelope, its handle states, moves and
-- errors, and the checks on requests and results.
pub mod Status
pub mod Json
pub mod Moves
pub mod Errors
pub mod Envelope
pub mod Request
pub mod Rows
pub mod Catalog
