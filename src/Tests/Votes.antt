-- ===== src/Tests/Votes.antt =====
-- Votes, elections and restarts of raft/part3/raft.go at concrete states.
use go_distributed_system.Base.{
  ◌++◌, ℕ, ℤ, pos, ◌≡◌, ◌↔◌, ◌+ℤ◌, inr, refl, true, false, some, [], ◌∷◌, arith,
}
use go_distributed_system.Raft.State.{
  last_log_index_and_term, become_follower, ConsensusModule, RequestVoteReply, AppendEntriesArgs,
  RequestVoteArgs, no_vote_reply,
}
use go_distributed_system.Raft.Persist.{blank, persist_to_storage, new_consensus_module, submit}
use go_distributed_system.Raft.Persist.Restart.{
  IsDurable, restarted, submit_accepted, persist_to_storage-IsDurable,
}
use go_distributed_system.Raft.Election.{
  Timer, Election, request_vote, run_election_timer, handle_vote_reply, start_election,
  observe_term, grants, cast_vote,
}
use go_distributed_system.Raft.Election.Votes.{
  MayVote, IsUpToDate, vote_granted_iff, vote_granted_durable,
}
use go_distributed_system.Raft.Election.Stale.{
  Leads, hear_replies, votes, stale_votes-win, start_election-not_durable,
}
use go_distributed_system.Raft.Steps.Twice.{timed_out_and_stopped, stale_reply-second_vote}
use go_distributed_system.Raft.Steps.{here, next, timer}
use go_distributed_system.Raft.Steps.Votes.{vote_once}
use go_distributed_system.Tests.Clusters.{
  Blob, keep_all, from_some, fresh_follower, short_follower, leading, ask, ask_again,
}

-- Server 1 votes for server 0, lets its timer tick, and is asked again.
abbrev voted : ConsensusModule ℕ Blob × RequestVoteReply
voted = from_some (fresh_follower, no_vote_reply) (request_vote keep_all 5 ask fresh_follower)

abbrev ticking : Timer
ticking = record { timeout_duration = 150; term_started = pos 1 }

abbrev ticked : ConsensusModule ℕ Blob
ticked = (run_election_timer 9 ticking voted.0).0

abbrev voted_again : ConsensusModule ℕ Blob × RequestVoteReply
voted_again = from_some (fresh_follower, no_vote_reply) (request_vote keep_all 20 ask_again ticked)

abbrev Anything : AppendEntriesArgs ℕ → ConsensusModule ℕ Blob → Type 0
Anything _ _ = Unit {0}

vote_once_example : ask.candidate_id ≡ ask_again.candidate_id
unfolding request_vote run_election_timer persist_to_storage become_follower last_log_index_and_term
vote_once_example =
    vote_once keep_all Anything 5 20 ask ask_again fresh_follower voted.0 ticked voted_again.0
      {reply = voted.1} {reply' = voted_again.1} refl (λ e. cc) refl refl
      (next here (timer 9 ticking)) refl refl refl

vote_granted_iff_example :
    (voted.1.vote_granted ≡ true) ↔ (MayVote ask fresh_follower × IsUpToDate ask fresh_follower)
unfolding request_vote persist_to_storage
vote_granted_iff_example =
    vote_granted_iff keep_all 5 ask fresh_follower {cm' = voted.0} {reply = voted.1} refl refl

vote_granted_durable_example :
    (voted.0.current_term ≡ pos 1)
    × (voted.0.voted_for ≡ pos 0)
    × (new_consensus_module keep_all (pos 1) (pos 0 ∷ pos 2 ∷ []) voted.0.storage
        ≡ some (restarted keep_all (pos 1) (pos 0 ∷ pos 2 ∷ []) voted.0))
unfolding request_vote persist_to_storage become_follower last_log_index_and_term
vote_granted_durable_example =
    vote_granted_durable keep_all 5 ask fresh_follower {cm' = voted.0} {reply = voted.1} refl refl
      refl

-- Server 0 starts an election for term 1, and 150 ms later one for term 2. Then a vote of term 1 comes.
abbrev first_timer : Timer
first_timer = record { timeout_duration = 150; term_started = pos 1 }

abbrev idle : ConsensusModule ℕ Blob
idle = blank (pos 0) (pos 1 ∷ pos 2 ∷ []) []

stale_votes-win_example :
    Leads
      (pos 2)
      (hear_replies 170
        (votes 1 (pos 1))
        (start_election 10 idle).1
        (run_election_timer 160 first_timer (start_election 10 idle).0).0).0
stale_votes-win_example =
    stale_votes-win 10 160 170 1 first_timer idle refl (omega arith) (omega arith) (omega arith)

-- Server 1 votes for server 0 in term 1, its timer runs out, and a refusal of term 1 of its election for
-- term 0 stops its election for term 2. Then server 2 asks for the vote of term 1.
abbrev older_election : Election
older_election = record { saved_current_term = pos 0; votes_received = 1 }

abbrev late_refusal : RequestVoteReply
late_refusal = record { term = pos 1; vote_granted = false }

abbrev ask_too : RequestVoteArgs
ask_too = record ask { candidate_id = pos 2 }

abbrev stopped : ConsensusModule ℕ Blob
stopped = timed_out_and_stopped 160 170 ticking late_refusal older_election voted.0

abbrev voted_twice : ConsensusModule ℕ Blob × RequestVoteReply
voted_twice = from_some (fresh_follower, no_vote_reply) (request_vote keep_all 180 ask_too stopped)

stale_reply-second_vote_example :
    (voted_twice.1.vote_granted ≡ true) × (voted_twice.0.voted_for ≡ pos 2)
unfolding request_vote run_election_timer persist_to_storage become_follower last_log_index_and_term
    handle_vote_reply start_election observe_term grants cast_vote
stale_reply-second_vote_example =
    stale_reply-second_vote keep_all 5 160 170 180 ask ask_too ticking late_refusal older_election
      fresh_follower voted.0 voted_twice.0 voted.1 voted_twice.1 refl refl refl refl (omega arith)
      (omega arith) refl refl (inr (refl, omega arith)) refl

-- Server 1 with its state in stable storage.
abbrev saved : ConsensusModule ℕ Blob
saved = from_some short_follower (persist_to_storage keep_all short_follower)

saved-IsDurable : IsDurable keep_all saved
unfolding persist_to_storage
saved-IsDurable = persist_to_storage-IsDurable keep_all short_follower refl

start_election-not_durable_example :
    ((start_election 9 saved).0.current_term ≡ saved.current_term +ℤ pos 1)
    × ((start_election 9 saved).0.voted_for ≡ saved.id)
    × (new_consensus_module keep_all saved.id saved.peer_ids (start_election 9 saved).0.storage
        ≡ some (restarted keep_all saved.id saved.peer_ids saved))
start_election-not_durable_example = start_election-not_durable keep_all 9 saved saved-IsDurable

-- Server 0 takes the command 5.
abbrev submitted : ConsensusModule ℕ Blob × ℤ
submitted = from_some (leading, pos 0) (submit keep_all 5 leading)

submit_accepted_example :
    (submitted.1 ≡ pos 2)
    × (submitted.0.log ≡ leading.log ++ record { command = 5; term = pos 1 } ∷ [])
    × (new_consensus_module keep_all submitted.0.id submitted.0.peer_ids submitted.0.storage
        ≡ some (restarted keep_all submitted.0.id submitted.0.peer_ids submitted.0))
unfolding submit persist_to_storage
submit_accepted_example =
    submit_accepted keep_all 5 leading {cm' = submitted.0} {index = submitted.1} refl refl
