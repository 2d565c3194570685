-- ===== src/Worker.antt =====
-- crates/postgres-mcp-core/src/worker.rs: one worker for each open handle, the registry that the
-- workers publish to, and the admission of requests.
pub mod Backend
pub mod Registry
pub mod Execute
pub mod Loop
pub mod Translate
pub mod Native
pub mod Admission
pub mod Open
pub mod Handle
pub mod Guidance
pub mod Lawful
pub mod Turn
pub mod Shutdown
pub mod Listing
pub mod Dispatch
