-- ===== src/Tests/Logs.antt =====
-- Replication and commitment of raft/part3/raft.go at concrete states.
use go_distributed_system.Raft.Persist.{persist_to_storage}
use go_distributed_system.Raft.Election.{observe_term}
use go_distributed_system.Base.{
  lookup, ◌≤◌, ℕ, ◌+◌, ◌*◌, ◌<◌, ◌≡◌, pos, refl, true, false, Bool, some, ◌++◌, take, drop, length,
  get_elem?, arith, insert,
}
use go_distributed_system.Raft.State.{
  LogEntry, ConsensusModule, AppendEntriesArgs, AppendEntriesReply, no_append_reply, follower,
}
use go_distributed_system.Raft.Append.{conflict_hint, prev_matches, answer_append, append_entries}
use go_distributed_system.Raft.Append.Merge.{merge}
use go_distributed_system.Raft.Append.Effect.{start_of}
use go_distributed_system.Raft.Append.Replication.{append_entries-merge}
use go_distributed_system.Raft.Append.Conflict.{Hint, append_entries-Hint}
use go_distributed_system.Raft.Leader.{
  append_entries_args, record_success, peers_at_least, committable,
}
use go_distributed_system.Raft.Leader.Commit.{recorded, commit_needs_majority}
use go_distributed_system.Raft.Leader.Requests.{replicated}
use go_distributed_system.Tests.Clusters.{
  Blob, keep_all, from_some, second_entry, short_follower, clashing_follower, leading, next_entries,
  too_far,
}

abbrev Answer : Type 0
Answer = ConsensusModule ℕ Blob × AppendEntriesReply × Bool

-- Server 1 takes the second entry of server 0.
abbrev taken : Answer
taken =
    from_some (short_follower, no_append_reply, false)
      (append_entries keep_all 9 next_entries short_follower)

append_entries-merge_example :
    (taken.0.log
      ≡ take (start_of next_entries) short_follower.log
        ++ merge (drop (start_of next_entries) short_follower.log) next_entries.entries)
    × (start_of next_entries ≤ length short_follower.log)
    × (taken.0.current_term ≡ pos 1)
    × (taken.0.state ≡ follower)
unfolding append_entries answer_append observe_term prev_matches persist_to_storage
append_entries-merge_example =
    append_entries-merge keep_all 9 next_entries short_follower {cm' = taken.0} {reply = taken.1}
      {ready = taken.2} refl refl refl

-- The same request once more.
abbrev retaken : Answer
retaken =
    from_some (short_follower, no_append_reply, false)
      (append_entries keep_all 12 next_entries taken.0)

-- Server 1 has an entry of another term where the request names one.
abbrev refused : Answer
refused =
    from_some (short_follower, no_append_reply, true)
      (append_entries keep_all 9 too_far clashing_follower)

append_entries-Hint_example :
    Hint clashing_follower.log (pos 1) (pos 1) refused.1.conflict_index refused.1.conflict_term
    × (refused.0.log ≡ clashing_follower.log)
    × (refused.0.commit_index ≡ clashing_follower.commit_index)
unfolding append_entries answer_append observe_term prev_matches conflict_hint persist_to_storage
append_entries-Hint_example =
    append_entries-Hint keep_all 9 too_far clashing_follower {cm' = refused.0} {reply = refused.1}
      {ready = refused.2} refl refl refl refl

abbrev built : AppendEntriesArgs ℕ
built = from_some too_far (append_entries_args (pos 1) (pos 1) leading)

replicated_example :
    (f : LogEntry ℕ) × (get_elem? taken.0.log 1 ≡ some f) × (f.term ≡ second_entry.term)
unfolding lookup append_entries_args append_entries answer_append observe_term prev_matches
    persist_to_storage
replicated_example =
    replicated keep_all 9 (pos 1) (pos 1) 1 leading short_follower next_entries refl (omega arith)
      (omega arith, omega arith) refl {peer' = taken.0} {reply = taken.1} {ready = taken.2} refl
      refl refl 1 second_entry (omega arith) refl

-- The next index of server 2 at server 0 is one too far.
abbrev last_entries : AppendEntriesArgs ℕ
last_entries = record too_far { leader_commit = pos 0 }

-- Server 1 has taken one entry from index 1 on: server 0 may commit it.
abbrev committed : ConsensusModule ℕ Blob × Bool
committed = from_some (leading, false) (record_success (pos 1) (pos 1) 1 leading)

commit_needs_majority_example :
    (j : ℕ) × (e : LogEntry ℕ) × (committed.0.commit_index ≡ pos j)
    × (get_elem? committed.0.log j ≡ some e)
    × (e.term ≡ committed.0.current_term)
    × (length leading.peer_ids + 1
        < (1
            + peers_at_least
                (recorded (pos 1) (pos 1) 1 leading).match_index
                (pos j)
                leading.peer_ids)
          * 2)
unfolding record_success committable lookup insert
commit_needs_majority_example =
    commit_needs_majority (pos 1) (pos 1) 1 leading {cm' = committed.0} {notify = committed.1}
      (omega arith, omega arith) refl (λ e. cc)
