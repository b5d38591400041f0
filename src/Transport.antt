-- ===== src/Transport.antt =====
-- internal/transport/http.
pub mod Sse
pub mod Instances
pub mod Events
pub mod Writing
