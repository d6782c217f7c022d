-- ===== src/Raft/Election.antt =====
-- raft/part3/raft.go: the election timer, elections, and the RequestVote handler.
-- A time is what the clock reads when the function runs.
pub mod Votes
pub mod Stale
use go_distributed_system.Base.{
  ℕ, ◌+◌, ◌*◌, ℤ, pos, ◌+ℤ◌, minus_one, Bool, not, ◌&&◌, ◌||◌, Option, some, List, [], ◌∷◌, Map,
  insert, length, ltb, leb, ltb_ℤ, leb_ℤ, ◌==◌, if◌then◌else◌, ◌>>=◌, int_eq,
}
use go_distributed_system.Raft.State.{
  ConsensusModule, RequestVoteArgs, RequestVoteReply, no_vote_reply, candidate, leader, is_dead,
  is_candidate, is_follower, last_log_index_and_term, become_follower,
}
use go_distributed_system.Raft.Persist.{Gob, persist_to_storage}

-- The state that the goroutines of one election share.
pub record Election : Type 0 where
  pub saved_current_term : ℤ
  pub votes_received : ℕ

-- One `runElectionTimer`, with the values that it reads at its start.
pub record Timer : Type 0 where
  pub timeout_duration : ℕ
  pub term_started : ℤ

pub data TimerStatus : Type 0 where
  waiting : TimerStatus
  bailed_out : TimerStatus
  expired : Election → TimerStatus

-- What a reply to a vote request led to.
pub data VoteOutcome : Type 0 where
  ignored stepped_down counted won : VoteOutcome

-- At least as up-to-date as a log that ends at this index in this term.
abbrev pub up_to_date : RequestVoteArgs → ℤ → ℤ → Bool
up_to_date args last_log_index last_log_term =
    ltb_ℤ last_log_term args.last_log_term
    || (args.last_log_term == last_log_term && leb_ℤ last_log_index args.last_log_index)

-- `m[peerId] = v` for each peer.
unfoldable pub set_all : List ℤ → ℤ → Map ℤ ℤ → Map ℤ ℤ
set_all [] v m = m
set_all (p ∷ ps) v m = set_all ps v (insert p v m)

module _ {C B : Type 0} where
  -- The votes of one election, the candidate's own among them.
  unfoldable pub start_election : ℕ → ConsensusModule C B → ConsensusModule C B × Election
  start_election now cm =
      let term = cm.current_term +ℤ pos 1 in
      (
        record cm {
          state = candidate;
          current_term = term;
          election_reset_event = now;
          voted_for = cm.id;
        },
        record { saved_current_term = term; votes_received = 1 },
      )

  -- One tick of the timer.
  unfoldable pub run_election_timer :
      ℕ → Timer → ConsensusModule C B → ConsensusModule C B × TimerStatus
  unfolding start_election
  run_election_timer now timer cm =
      if not (is_candidate cm.state) && not (is_follower cm.state)
      then (cm, bailed_out)
      else if not (timer.term_started == cm.current_term)
      then (cm, bailed_out)
      else if leb (cm.election_reset_event + timer.timeout_duration) now
      then (let (cm', e) = start_election now cm in (cm', expired e))
      else (cm, waiting)

  -- The request that a goroutine of the election sends, read under the lock when it runs.
  unfoldable pub request_vote_args : ConsensusModule C B → Election → RequestVoteArgs
  request_vote_args cm e =
      let (last_log_index, last_log_term) = last_log_index_and_term cm in
      record {
        term = e.saved_current_term;
        candidate_id = cm.id;
        last_log_index = last_log_index;
        last_log_term = last_log_term;
      }

  unfoldable pub start_leader : ConsensusModule C B → ConsensusModule C B
  unfolding set_all
  start_leader cm = record cm {
    state = leader;
    next_index = set_all cm.peer_ids (pos (length cm.log)) cm.next_index;
    match_index = set_all cm.peer_ids minus_one cm.match_index;
  }

  -- What a goroutine does with the reply to its request.
  unfoldable pub handle_vote_reply :
      ℕ
      → RequestVoteReply
      → Election
      → ConsensusModule C B
      → ConsensusModule C B × Election × VoteOutcome
  handle_vote_reply now reply e cm =
      if not (is_candidate cm.state)
      then (cm, e, ignored)
      else if ltb_ℤ e.saved_current_term reply.term
      then (become_follower now reply.term cm, e, stepped_down)
      else if reply.term == e.saved_current_term && reply.vote_granted
      then (let e' = record e { votes_received = e.votes_received + 1 } in
          if ltb (length cm.peer_ids + 1) (e'.votes_received * 2)
          then (start_leader cm, e', won)
          else (cm, e', counted))
      else (cm, e, ignored)

  -- The term of a request that is ahead is taken over, in both handlers.
  unfoldable pub observe_term : ℕ → ℤ → ConsensusModule C B → ConsensusModule C B
  observe_term now term cm = if ltb_ℤ cm.current_term term then become_follower now term cm else cm

  -- The test of the handler, on the state in which the term is already taken over.
  unfoldable pub grants : RequestVoteArgs → ℤ → ℤ → ConsensusModule C B → Bool
  grants args last_log_index last_log_term cm =
      cm.current_term == args.term
      && (cm.voted_for == minus_one || cm.voted_for == args.candidate_id)
      && up_to_date args last_log_index last_log_term

  unfoldable pub cast_vote : ℕ → Bool → RequestVoteArgs → ConsensusModule C B → ConsensusModule C B
  cast_vote now grant args cm =
      if grant then record cm { voted_for = args.candidate_id; election_reset_event = now } else cm

  -- A dead module leaves the zero reply that it was given.
  unfoldable pub request_vote :
      Gob C B
      → ℕ
      → RequestVoteArgs
      → ConsensusModule C B
      → Option (ConsensusModule C B × RequestVoteReply)
  unfolding observe_term grants cast_vote
  request_vote gob now args cm =
      let (last_log_index, last_log_term) = last_log_index_and_term cm in
      let cm1 = observe_term now args.term cm in
      let grant = grants args last_log_index last_log_term cm1 in
      if is_dead cm.state then some (cm, no_vote_reply) else (do
        cm2 ← persist_to_storage gob (cast_vote now grant args cm1)
        some (cm2, record { term = cm1.current_term; vote_granted = grant }))
