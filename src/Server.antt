-- ===== src/Server.antt =====
-- crates/postgres-mcp: the program around the core, its arguments, its exit code and its tools.
pub mod Outcome
pub mod Arguments
pub mod Tools
pub mod Commits
pub mod Parameters
