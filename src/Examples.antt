-- ===== src/Examples.antt =====
-- Concrete runs: a small libpq adapter, a registry with two handles, and the theorems applied to
-- them.
pub mod Data
pub mod Protocol
pub mod Config
pub mod Worker
pub mod Native
pub mod Refusals
pub mod Closing
pub mod Schema
pub mod Server
pub mod Session
pub mod Admission
mod Shutdown
mod Release
mod Resolve
mod Opening
mod Commits
mod Parameters
