-- ===== src/App.antt =====
-- internal/app: what the application does around the node.
pub mod Members
pub mod Cleanup
pub mod Events
pub mod Stream
