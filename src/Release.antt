-- ===== src/Release.antt =====
-- crates/xtask/src/main.rs: the tool that checks and publishes releases.
pub mod Text
pub mod Notes
pub mod World
pub mod Checksums
pub mod Checks
pub mod Publish
pub mod Public
pub mod Commands
