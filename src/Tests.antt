-- ===== src/Tests.antt =====
-- Runs at concrete inputs, and the theorems applied to them.
pub mod Registration
pub mod Addressing
pub mod Logging
pub mod Naming
pub mod Querying
pub mod Watching
pub mod Replicating
pub mod Storing
pub mod Database
pub mod Encoding
pub mod Restoring
pub mod Reading
pub mod Running
pub mod Syncing
pub mod Serving
pub mod Recovering
