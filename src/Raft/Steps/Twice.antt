-- ===== src/Raft/Steps/Twice.antt =====
-- raft/part3/raft.go: how a module comes to vote for two candidates in one term.
use go_distributed_system.Base.{
  ℕ, ◌+◌, ◌≤◌, ◌≡◌, sym, ◌∙◌, ap, inr, inl, refl, ◌<ℤ◌, true, some, arith,
}
use go_distributed_system.Raft.State.{
  ConsensusModule, RequestVoteArgs, RequestVoteReply, follower, is_dead, become_follower,
  last_log_index_and_term,
}
use go_distributed_system.Raft.Persist.{Gob}
use go_distributed_system.Raft.Election.{
  Timer, Election, start_election, run_election_timer, handle_vote_reply, request_vote,
}
use go_distributed_system.Raft.Election.Votes.{
  IsUpToDate, MayVote, vote_granted_iff, vote_granted_durable,
}
use go_distributed_system.Raft.Steps.Votes.{request_vote-follower}

module _ {C B : Type 0} where
  -- The timer of a follower runs out, and then a reply of the term before stops its candidacy.
  abbrev pub timed_out_and_stopped :
      (now later : ℕ)
      → Timer
      → RequestVoteReply
      → Election
      → ConsensusModule C B
      → ConsensusModule C B
  timed_out_and_stopped now later timer reply e cm =
      (handle_vote_reply later reply e (run_election_timer now timer cm).0).0

  timed_out_and_stopped_lem :
      (now later : ℕ) (timer : Timer) (reply : RequestVoteReply) (e : Election)
      (cm : ConsensusModule C B)
      → cm.state ≡ follower
      → timer.term_started ≡ cm.current_term
      → cm.election_reset_event + timer.timeout_duration ≤ now
      → e.saved_current_term <ℤ cm.current_term
      → reply.term ≡ cm.current_term
      → timed_out_and_stopped now later timer reply e cm ≡ become_follower later cm.current_term cm
  unfolding run_election_timer start_election handle_vote_reply become_follower
  timed_out_and_stopped_lem now later timer reply e cm fol started expired old at_term =
      ground arith

  back_again-MayVote :
      (later : ℕ) (args : RequestVoteArgs) (cm : ConsensusModule C B)
      → args.term ≡ cm.current_term
      → IsUpToDate args cm
      → MayVote args (become_follower later cm.current_term cm)
        × IsUpToDate args (become_follower later cm.current_term cm)
  unfolding become_follower last_log_index_and_term
  back_again-MayVote later args cm at_term up = (inr (sym at_term, inl refl), up)

  -- A follower grants a vote. Its timer runs out, and in its election for the next term it hears
  -- a reply of the term before, to a vote request of an older election of its own. If its
  -- handler then returns on the request of any candidate of that term whose log is at least as
  -- up-to-date as its own, it grants that candidate the vote too.
  pub stale_reply-second_vote :
      (gob : Gob C B) (t0 t1 t2 t3 : ℕ) (first second : RequestVoteArgs) (timer : Timer)
      (late : RequestVoteReply) (e : Election) (a b d : ConsensusModule C B)
      (reply reply' : RequestVoteReply)
      → a.state ≡ follower
      → request_vote gob t0 first a ≡ some (b, reply)
      → reply.vote_granted ≡ true
      → timer.term_started ≡ first.term
      → b.election_reset_event + timer.timeout_duration ≤ t1
      → e.saved_current_term <ℤ first.term
      → late.term ≡ first.term
      → second.term ≡ first.term
      → IsUpToDate second b
      → request_vote gob t3 second (timed_out_and_stopped t1 t2 timer late e b) ≡ some (d, reply')
      → (reply'.vote_granted ≡ true) × (d.voted_for ≡ second.candidate_id)
  unfolding become_follower
  stale_reply-second_vote gob t0 t1 t2 t3 first second timer late e a b d reply reply' fol h1 g1
        started expired old at_late at_second up h2 =
      let (term_b, _, _) = vote_granted_durable gob t0 first a (ap is_dead fol) h1 g1 in
      let fol_b = request_vote-follower gob t0 first a h1 fol in
      let back =
        timed_out_and_stopped_lem t1 t2 timer late e b fol_b (started ∙ sym term_b) expired
          (ground (arith, old, term_b)) (at_late ∙ sym term_b) in
      let c = become_follower t2 b.current_term b in
      let h3 = ap (request_vote gob t3 second) (sym back) ∙ h2 in
      let may = back_again-MayVote t2 second b (at_second ∙ sym term_b) up in
      let granted = (vote_granted_iff gob t3 second c refl h3).1 may in
      let (_, vote_d, _) = vote_granted_durable gob t3 second c refl h3 granted in (granted, vote_d)
