-- ===== src/Replication.antt =====
-- internal/replication.
pub mod Tracker
