-- ===== src/Raft/Election/Votes.antt =====
-- When the RequestVote handler grants a vote, and what it leaves behind.
use go_distributed_system.Base.{
  ℕ, ◌≡◌, ◌⊎◌, sym, ap, ◌∙◌, minus_one, ◌≤ℤ◌, ◌<ℤ◌, Bool, true, false, Option, some, some_inj,
  if_false, >>=-eq-some, arith, ◌↔◌,
}
use go_distributed_system.Raft.State.{
  is_dead, ConsensusModule, RequestVoteArgs, RequestVoteReply, last_log_index_and_term,
  become_follower,
}
use go_distributed_system.Raft.Persist.{Gob, persist_to_storage, new_consensus_module}
use go_distributed_system.Raft.Persist.Restart.{
  persist_to_storage_frame, IsDurable, persist_to_storage-IsDurable, restarted,
  new_consensus_module-IsDurable,
}
use go_distributed_system.Raft.Election.{observe_term, grants, cast_vote, request_vote}

-- The candidate's log ends in a later term, or in the same term and not before ours.
abbrev pub IsUpToDate : {C B : Type 0} → RequestVoteArgs → ConsensusModule C B → Type 0
IsUpToDate args cm =
    ((last_log_index_and_term cm).1 <ℤ args.last_log_term)
    ⊎ (((last_log_index_and_term cm).1 ≡ args.last_log_term)
        × ((last_log_index_and_term cm).0 ≤ℤ args.last_log_index))

-- The module is free to vote for the candidate in the request's term.
abbrev pub MayVote : {C B : Type 0} → RequestVoteArgs → ConsensusModule C B → Type 0
MayVote args cm =
    (cm.current_term <ℤ args.term)
    ⊎ ((cm.current_term ≡ args.term)
        × ((cm.voted_for ≡ minus_one) ⊎ (cm.voted_for ≡ args.candidate_id)))

module _ {C B : Type 0} (gob : Gob C B) (now : ℕ) (args : RequestVoteArgs)
    (cm : ConsensusModule C B) where
  -- The state that is persisted, and the vote.
  abbrev pub observed : ConsensusModule C B
  observed = observe_term now args.term cm

  abbrev pub granted : Bool
  granted =
      grants args (last_log_index_and_term cm).0 (last_log_index_and_term cm).1
        (observe_term now args.term cm)

  pub record Polled (cm' : ConsensusModule C B) (reply : RequestVoteReply) : Type 0 where
    pub framed : cm' ≡ record (cast_vote now granted args observed) { storage = cm'.storage }
    pub reply_term : reply.term ≡ observed.current_term
    pub reply_vote : reply.vote_granted ≡ granted
    pub durable : IsDurable gob cm'

  Polled-of :
      (m : ConsensusModule C B) {cm' : ConsensusModule C B} {reply : RequestVoteReply}
      → persist_to_storage gob (cast_vote now granted args observed) ≡ some m
      → ◌≡◌ {A = Option (ConsensusModule C B × RequestVoteReply)}
          (some (m, record { term = observed.current_term; vote_granted = granted }))
          (some (cm', reply))
      → Polled cm' reply
  Polled-of m p e =
      let same = some_inj e in
      let p' = p ∙ ap some (λ i. (same i).0) in
      record {
        framed = persist_to_storage_frame gob _ p';
        reply_term = λ i. (sym same i).1.term;
        reply_vote = λ i. (sym same i).1.vote_granted;
        durable = persist_to_storage-IsDurable gob _ p';
      }

  pub request_vote-Polled :
      {cm' : ConsensusModule C B} {reply : RequestVoteReply}
      → is_dead cm.state ≡ false
      → request_vote gob now args cm ≡ some (cm', reply)
      → Polled cm' reply
  unfolding request_vote
  request_vote-Polled alive h =
      let (m, p, e) =
        >>=-eq-some (persist_to_storage gob (cast_vote now granted args observed)) _
          (sym (if_false _ _ alive) ∙ h) in
      Polled-of m p e

  granted_sound : granted ≡ true → MayVote args cm × IsUpToDate args cm
  unfolding grants observe_term become_follower
  granted_sound h = ground arith

  granted_complete : MayVote args cm → IsUpToDate args cm → granted ≡ true
  unfolding grants observe_term become_follower
  granted_complete may up = ground arith

module _ {C B : Type 0} (gob : Gob C B) (now : ℕ) (args : RequestVoteArgs)
    (cm : ConsensusModule C B) {cm' : ConsensusModule C B} {reply : RequestVoteReply}
    (alive : is_dead cm.state ≡ false)
    (handled : request_vote gob now args cm ≡ some (cm', reply)) where
  -- A module that is not dead grants a vote exactly if the request's term is later than its own,
  -- or is its own and it has voted for nobody else in it, and if the candidate's log is at least
  -- as up-to-date as its own.
  pub vote_granted_iff : (reply.vote_granted ≡ true) ↔ (MayVote args cm × IsUpToDate args cm)
  vote_granted_iff =
      let p = request_vote-Polled gob now args cm alive handled in
      (
        λ h. granted_sound gob now args cm (sym p.reply_vote ∙ h),
        λ h. p.reply_vote ∙ granted_complete gob now args cm h.0 h.1,
      )

  -- A module that grants a vote is in the request's term and has voted for the candidate, and it
  -- comes back from a restart with that term and that vote.
  pub vote_granted_durable :
      reply.vote_granted ≡ true
      → (cm'.current_term ≡ args.term)
        × (cm'.voted_for ≡ args.candidate_id)
        × (new_consensus_module gob cm.id cm.peer_ids cm'.storage
            ≡ some (restarted gob cm.id cm.peer_ids cm'))
  unfolding grants observe_term become_follower cast_vote
  vote_granted_durable h =
      let p = request_vote-Polled gob now args cm alive handled in
      (
        ground (arith, p.framed, p.reply_vote),
        ground (arith, p.framed, p.reply_vote),
        new_consensus_module-IsDurable gob cm.id cm.peer_ids cm' p.durable,
      )
