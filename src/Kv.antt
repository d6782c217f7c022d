-- ===== src/Kv.antt =====
-- The key-value service over Raft, raft/part5kv: its API, its store, its service and its client.
pub mod Api
pub mod Store
pub mod Service
pub mod Client
