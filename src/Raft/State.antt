-- ===== src/Raft/State.antt =====
-- raft/part3/raft.go: the types, the state of a consensus module, and the helpers on its log.
-- `C` is the type of commands (`any` in the source) and `B` that of the bytes in stable storage.
-- Go's `int` is ℤ, without its wrap-around at 2 ^ 63; a time is a number of nanoseconds.
-- Mutexes, channels and goroutines are left out: each function is what runs under one lock.
use go_distributed_system.Base.{
  ℕ, ◌-◌, ℤ, pos, nat?, minus_one, String, Bool, true, false, Option, none, some, List, Map, length,
  get_elem?, drop, leb, if◌then◌else◌, ◌>>=◌,
}

pub data CmState : Type 0 where
  follower candidate leader dead : CmState

abbrev pub is_dead : CmState → Bool
is_dead dead = true
is_dead _ = false

abbrev pub is_leader : CmState → Bool
is_leader leader = true
is_leader _ = false

abbrev pub is_follower : CmState → Bool
is_follower follower = true
is_follower _ = false

abbrev pub is_candidate : CmState → Bool
is_candidate candidate = true
is_candidate _ = false

pub record LogEntry (C : Type 0) : Type 0 where
  pub command : C
  pub term : ℤ

pub record CommitEntry (C : Type 0) : Type 0 where
  pub command : C
  pub index : ℤ
  pub term : ℤ

-- A key that a map lacks reads as 0.
pub record ConsensusModule (C B : Type 0) : Type 0 where
  pub id : ℤ
  pub peer_ids : List ℤ
  pub storage : Map String B
  pub current_term : ℤ
  pub voted_for : ℤ
  pub log : List (LogEntry C)
  pub commit_index : ℤ
  pub last_applied : ℤ
  pub state : CmState
  pub election_reset_event : ℕ
  pub next_index : Map ℤ ℤ
  pub match_index : Map ℤ ℤ

pub record RequestVoteArgs : Type 0 where
  pub term : ℤ
  pub candidate_id : ℤ
  pub last_log_index : ℤ
  pub last_log_term : ℤ

pub record RequestVoteReply : Type 0 where
  pub term : ℤ
  pub vote_granted : Bool

pub record AppendEntriesArgs (C : Type 0) : Type 0 where
  pub term : ℤ
  pub leader_id : ℤ
  pub prev_log_index : ℤ
  pub prev_log_term : ℤ
  pub entries : List (LogEntry C)
  pub leader_commit : ℤ

pub record AppendEntriesReply : Type 0 where
  pub term : ℤ
  pub success : Bool
  pub conflict_index : ℤ
  pub conflict_term : ℤ

-- The zero values that a caller passes in for a reply.
abbrev pub no_vote_reply : RequestVoteReply
no_vote_reply = record { term = pos 0; vote_granted = false }

abbrev pub no_append_reply : AppendEntriesReply
no_append_reply = record {
  term = pos 0;
  success = false;
  conflict_index = pos 0;
  conflict_term = pos 0;
}

-- `xs[i]`; `none` is a run-time panic.
abbrev pub at : {A : Type 0} → List A → ℤ → Option A
at xs i = do n ← nat? i; get_elem? xs n

-- `xs[i:]`; `none` is a run-time panic.
abbrev pub slice_from : {A : Type 0} → List A → ℤ → Option (List A)
slice_from xs i = do n ← nat? i; if leb n (length xs) then some (drop n xs) else none

module _ {C B : Type 0} where
  -- On an empty log there is no entry, and both results are -1.
  unfoldable pub last_log_index_and_term : ConsensusModule C B → ℤ × ℤ
  last_log_index_and_term cm = elim (get_elem? cm.log (length cm.log - 1)) [
    | none ↦ (minus_one, minus_one)
    | some e ↦ (pos (length cm.log - 1), e.term)
  ]

  -- The election timer that this starts is a `Timer` of the election module.
  unfoldable pub become_follower : ℕ → ℤ → ConsensusModule C B → ConsensusModule C B
  become_follower now term cm = record cm {
    state = follower;
    current_term = term;
    voted_for = minus_one;
    election_reset_event = now;
  }

  -- The `term` and `isLeader` of `Report`, after the id.
  unfoldable pub report : ConsensusModule C B → ℤ × ℤ × Bool
  report cm = (cm.id, cm.current_term, is_leader cm.state)

  unfoldable pub stop : ConsensusModule C B → ConsensusModule C B
  stop cm = record cm { state = dead }
