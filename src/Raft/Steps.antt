-- ===== src/Raft/Steps.antt =====
-- The life of one module: the functions of the source as the steps of a relation.
pub mod Votes
pub mod Stays
pub mod Committed
pub mod Deliveries
pub mod Twice
use go_distributed_system.Base.{ℕ, ◌≡◌, ℤ, ◌≤ℤ◌, Bool, true, some, List}
use go_distributed_system.Raft.State.{
  ConsensusModule, CommitEntry, RequestVoteArgs, RequestVoteReply, AppendEntriesArgs,
  AppendEntriesReply, is_candidate, stop,
}
use go_distributed_system.Raft.Persist.{Gob, submit}
use go_distributed_system.Raft.Election.{
  Timer, Election, run_election_timer, request_vote, handle_vote_reply,
}
use go_distributed_system.Raft.Append.{append_entries}
use go_distributed_system.Raft.Leader.{handle_append_reply}
use go_distributed_system.Raft.Deliver.{commit_chan_sender}

-- The life of one process: there is no step for a crash and a restart. `Allowed` says which
-- AppendEntries requests the environment sends, and `Heard` which replies to the vote requests of
-- an election reach the module.
module _ {C B : Type 0} (gob : Gob C B)
    (Allowed : AppendEntriesArgs C → ConsensusModule C B → Type 0)
    (Heard : RequestVoteReply → Election → ConsensusModule C B → Type 0) where
  pub data Step (cm : ConsensusModule C B) : ConsensusModule C B → Type 0 where
    timer : (now : ℕ) (t : Timer) → Step cm (run_election_timer now t cm).0
    vote_request :
        (now : ℕ) (args : RequestVoteArgs) {cm' : ConsensusModule C B} {reply : RequestVoteReply}
        → request_vote gob now args cm ≡ some (cm', reply)
        → Step cm cm'
    vote_reply :
        (now : ℕ) (reply : RequestVoteReply) (e : Election)
        → Heard reply e cm
        → Step cm (handle_vote_reply now reply e cm).0
    append_request :
        (now : ℕ) (args : AppendEntriesArgs C) {cm' : ConsensusModule C B}
        {reply : AppendEntriesReply} {ready : Bool}
        → Allowed args cm
        → append_entries gob now args cm ≡ some (cm', reply, ready)
        → Step cm cm'
    append_reply :
        (now : ℕ) (saved peer ni : ℤ) (sent : ℕ) (reply : AppendEntriesReply)
        {cm' : ConsensusModule C B} {moved : Bool}
        → handle_append_reply now saved peer ni sent reply cm ≡ some (cm', moved)
        → Step cm cm'
    submitted :
        (command : C) {cm' : ConsensusModule C B} {index : ℤ}
        → submit gob command cm ≡ some (cm', index)
        → Step cm cm'
    delivered :
        {cm' : ConsensusModule C B} {out : List (CommitEntry C)}
        → commit_chan_sender cm ≡ some (cm', out)
        → Step cm cm'
    stopped : Step cm (stop cm)

  pub data Reach (cm : ConsensusModule C B) : ConsensusModule C B → Type 0 where
    here : Reach cm cm
    next : {mid cm' : ConsensusModule C B} → Reach cm mid → Step mid cm' → Reach cm cm'
