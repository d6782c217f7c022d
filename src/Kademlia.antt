-- ===== src/Kademlia.antt =====
-- The routing table of kademlia/: keys, heaps of contacts, buckets, and the table.
pub mod Heap
pub mod Key
pub mod Bucket
pub mod Table
pub mod Server
