-- ===== src/Lib.antt =====
-- A verification library for the distributed-system programs of this repository.
--
-- The programs modelled, and how they interact:
--
-- Raft (raft/part3/raft.go, raft/part3/storage.go). A consensus module keeps a replicated log. Raft/State
-- has its state (`ConsensusModule`), messages and helpers; Raft/Persist its stable storage
-- (`persistToStorage`, `restoreFromStorage`, `NewConsensusModule`, `Submit`); Raft/Election the timer,
-- elections and `RequestVote`; Raft/Append the `AppendEntries` handler; Raft/Leader `leaderSendAEs`;
-- Raft/Deliver `commitChanSender`; Raft/Steps the life of one process of a module as a step relation, in
-- which every function above is a step. A crash ends it. Which AppendEntries requests and which replies to
-- vote requests reach the module are parameters of the relation. Each function is what the source runs under one lock, with the guards and
-- early returns in the source's order; a time is what the clock reads, and `none` is a panic or
-- `log.Fatal`. encoding/gob is a parameter (`Gob`) whose decoders undo its encoders.
--
-- goraft (goraft/raft.go). A Raft server of its own, which counts terms and indices as uint64s and keeps
-- its term, its vote and its log in a metadata file. Goraft/State has the server and the helpers on it;
-- Goraft/Disk the file, as a page of 4096 bytes and slots of 128 bytes behind it, with `persist`,
-- `restore` and the start of a server; Goraft/Votes `updateTerm`, `HandleRequestVoteRequest`,
-- `requestVote`, `timeout` and `becomeLeader`; Goraft/Append `HandleAppendEntriesRequest`; Goraft/Leader
-- `Apply`, `appendEntries`, `heartbeat` and `advanceCommitIndex`; Goraft/Steps the runs of a server, in
-- which the loop of `Start` and the handlers take the lock in any order. A function that
-- releases the lock for a call of the network is two definitions, the request and what is done with the
-- response. The time and the random number of a timeout (`Clock`), the capacity of the slice of the log
-- and the user's state machine are parameters. A file operation does not fail: where one does, the
-- source panics. A request keeps the channels of its entries, which gob does not send. `Kept` says that the file is up to date.
--
-- The key-value service (raft/part5kv). A client (Kv/Client) sends a request with an identity to a
-- service (Kv/Service), which submits a command to Raft, waits for it to be committed at its index,
-- applies committed commands to the store (Kv/Store) and drops repeats. Kv/Api has the types of
-- raft/part5kv/api/api.go and of kvservice/command.go.
--
-- The BitTorrent client (torrent-client). Torrent/Bytes has what the formats use of Go's library,
-- Torrent/Message, Torrent/Handshake and Torrent/Peers the wire formats, and Torrent/Download the download
-- of one piece from one peer (p2p/p2p.go, `attemptDownloadPiece` and `readMessage`) and the bitfield.
--
-- The Kademlia routing table (kademlia/routing.go, with kademlia/type.go, utils.go and server.go).
-- Kademlia/Key has the keys and their distance, Kademlia/Heap what is used of container/heap with the
-- laws of its operations, Kademlia/Bucket the contacts and `KBucket`, Kademlia/Table the 144 buckets of a
-- node with `AddContact`, `FindClosest` and the other methods, Kademlia/Server the handlers `GetContacts`
-- and `Join`, whose conversions to the API types are parameters. `FindClosest` takes the lock of the table
-- once for each bucket; it is modelled as if nobody changed the table in between.
--
-- Base has the helpers that are shared: tests, lists over the native numbers, signed integers, maps.
-- Tests has small concrete states and every theorem at one of them.
--
-- Conventions. Go's `int` is ℤ, or ℕ where it is never negative, without its wrap-around at 2 ^ 63; the
-- 32-bit lengths of the BitTorrent formats do wrap. A Go map is an association list: the code that is
-- modelled never ranges over one. The loop of `AppendEntries` takes as fuel the number of new entries,
-- one more of which is read in each round; the loop of the client's `send` has no bound in the source,
-- and its fuel is the number of attempts.
-- The loops of a heap take as fuel a bound on the rounds: `up` goes to smaller indices, `down` to larger
-- ones below the length; the loop of `FindClosest` runs its index up to 144. The loop that sends requests
-- takes the length of the piece, since each round asks for a byte at least; the loop around it runs over
-- the list of what the reads give.
--
-- An index of a log in goraft is below the length of a list in memory, and is written without the modulus
-- of a uint64 where the source adds to such an index; where it stands for a member's next index, the
-- modulus is written out. The search for a commit index goes down from the last index.
--
-- Not modelled: sockets, HTTP, JSON, RPC servers, logging, generated code, the earlier parts of the
-- Raft series and the other programs of the repository.
pub mod Base
pub mod Raft
pub mod Kv
pub mod Torrent
pub mod Goraft
pub mod Kademlia
pub mod Tests
