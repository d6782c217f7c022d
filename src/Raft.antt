-- ===== src/Raft.antt =====
-- The consensus module of raft/part3/raft.go with its storage, raft/part3/storage.go.
-- State and messages; persistence; elections; the log on followers; the leader; delivery.
pub mod State
pub mod Persist
pub mod Election
pub mod Append
pub mod Leader
pub mod Deliver
pub mod Steps
