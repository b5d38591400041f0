-- ===== src/Raftnode.antt =====
-- internal/raftnode: the node around etcd's Raft.
pub mod Waiters
pub mod Config
pub mod Ready
pub mod Node
