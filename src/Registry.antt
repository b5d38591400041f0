-- ===== src/Registry.antt =====
-- internal/registry: the registry's domain.
pub mod Types
pub mod StringMap
pub mod Selector
pub mod Query
pub mod ServiceName
pub mod Register
pub mod Lease
pub mod Keys
pub mod Replication
pub mod Watch
pub mod Cleanup
