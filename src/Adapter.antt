-- ===== src/Adapter.antt =====
-- apps/cloud-api/src/microsandbox/microsandbox-adapter.service.ts: the sandbox backend over the
-- microsandbox library.
pub mod Library
pub mod Cli
pub mod SshFiles
pub mod Sandboxes
pub mod Launch
pub mod Stopping
pub mod Retry
pub mod Images
pub mod Service
pub mod Counting
pub mod Commands
pub mod Connections
pub mod Balanced
pub mod Deadline
pub mod Pulls
mod Tests
mod Served
