-- ===== src/Goraft.antt =====
-- The Raft server of goraft/: its state, its metadata file, and what it does under its lock.
pub mod State
pub mod Disk
pub mod Votes
pub mod Append
pub mod Leader
pub mod Steps
