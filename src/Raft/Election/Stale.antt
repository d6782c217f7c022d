-- ===== src/Raft/Election/Stale.antt =====
-- Where an election goes wrong: replies to an earlier election of the same candidate, and a crash
-- right after an election is started.
use go_distributed_system.Base.{
  ℕ, zero, suc, ℤ, ◌+◌, ◌*◌, ◌<◌, ◌≤◌, ◌≡◌, ◌⊎◌, inl, inr, refl, ap, pos, ◌+ℤ◌, true, some, List,
  [], ◌∷◌, length, Bool-cases, ltb, arith, subst, sym, ◌∙◌,
}
use go_distributed_system.Raft.State.{candidate, leader, ConsensusModule, RequestVoteReply}
use go_distributed_system.Raft.Persist.{Gob, new_consensus_module}
use go_distributed_system.Raft.Persist.Restart.{
  IsDurable, restarted, new_consensus_module-IsDurable,
}
use go_distributed_system.Raft.Election.{
  Timer, Election, counted, ignored, start_election, run_election_timer, start_leader,
  handle_vote_reply,
}

abbrev pub vote_of : ℤ → RequestVoteReply
vote_of term = record { term = term; vote_granted = true }

-- So many votes for one election.
abbrev pub votes : ℕ → ℤ → List RequestVoteReply
votes zero term = []
votes (suc n) term = vote_of term ∷ votes n term

module _ {C B : Type 0} where
  -- The goroutines of one election hear these replies, one after the other.
  unfoldable pub hear_replies :
      ℕ → List RequestVoteReply → Election → ConsensusModule C B → ConsensusModule C B × Election
  hear_replies now [] e cm = (cm, e)
  hear_replies now (r ∷ rs) e cm =
      let (cm', e', _) = handle_vote_reply now r e cm in hear_replies now rs e' cm'

  handle_vote_reply-leader :
      (now : ℕ) (r : RequestVoteReply) (e : Election) (cm : ConsensusModule C B)
      → cm.state ≡ leader
      → handle_vote_reply now r e cm ≡ (cm, e, ignored)
  unfolding handle_vote_reply
  handle_vote_reply-leader now r e cm lead = ground arith

  hear_replies-leader :
      (now : ℕ) (rs : List RequestVoteReply) (e : Election) (cm : ConsensusModule C B)
      → cm.state ≡ leader
      → (hear_replies now rs e cm).0 ≡ cm
  unfolding hear_replies
  hear_replies-leader now [] e cm lead = refl
  hear_replies-leader now (r ∷ rs) e cm lead =
      ap (λ p. (hear_replies now rs p.1 p.0).0) (handle_vote_reply-leader now r e cm lead)
      ∙ hear_replies-leader now rs e cm lead

  -- The module leads in this term.
  pub record Leads (term : ℤ) (cm : ConsensusModule C B) : Type 0 where
    pub leads : cm.state ≡ leader
    pub in_term : cm.current_term ≡ term

  start_leader-Leads : (cm : ConsensusModule C B) → Leads cm.current_term (start_leader cm)
  unfolding start_leader
  start_leader-Leads cm = record { leads = refl; in_term = refl }

  -- A vote that is not the last one needed is counted, and the last one wins.
  granted-cases :
      (now : ℕ) (e : Election) (cm : ConsensusModule C B)
      → cm.state ≡ candidate
      → (((handle_vote_reply now (vote_of e.saved_current_term) e cm).0 ≡ start_leader cm)
          ⊎ ((handle_vote_reply now (vote_of e.saved_current_term) e cm
                ≡ (cm, record e { votes_received = e.votes_received + 1 }, counted))
              × ((e.votes_received + 1) * 2 ≤ length cm.peer_ids + 1)))
  unfolding handle_vote_reply
  granted-cases now e cm c =
      elim (Bool-cases (ltb (length cm.peer_ids + 1) ((e.votes_received + 1) * 2))) [
        | inl enough ↦ inl (ground arith)
        | inr few ↦ inr (ground arith, ground arith)
      ]

  hear_replies-Leads :
      (now n : ℕ) (e : Election) (cm : ConsensusModule C B)
      → cm.state ≡ candidate
      → 1 ≤ n
      → length cm.peer_ids + 1 < (e.votes_received + n) * 2
      → Leads cm.current_term (hear_replies now (votes n e.saved_current_term) e cm).0
  unfolding hear_replies
  hear_replies-Leads now zero e cm c some_vote maj = absurd (omega arith)
  hear_replies-Leads now (suc n) e cm c some_vote maj = elim (granted-cases now e cm c) [
    | inl won ↦
        let vs = votes n e.saved_current_term in
        let e' = (handle_vote_reply now (vote_of e.saved_current_term) e cm).1 in
        let stays = hear_replies-leader now vs e' (start_leader cm) (start_leader-Leads cm).leads in
        subst (λ c1. Leads cm.current_term (hear_replies now vs e' c1).0) (sym won)
          (subst (Leads cm.current_term) (sym stays) (start_leader-Leads cm))
    | inr (go_on, few) ↦
        subst
          (λ p. Leads cm.current_term (hear_replies now (votes n e.saved_current_term) p.1 p.0).0)
          (sym go_on)
          (hear_replies-Leads now n (record e { votes_received = e.votes_received + 1 }) cm c
            (omega arith) (omega arith))
  ]

  -- A module starts an election, its timer runs out before the votes come, and it starts another
  -- one in the next term. Then votes for the first election, one at least and enough for a majority
  -- with its own, make it the leader of the second term, with no vote for the second election heard.
  pub stale_votes-win :
      (now later last n : ℕ) (timer : Timer) (cm : ConsensusModule C B)
      → timer.term_started ≡ cm.current_term +ℤ pos 1
      → now + timer.timeout_duration ≤ later
      → 1 ≤ n
      → length cm.peer_ids + 1 < (1 + n) * 2
      → Leads
          (cm.current_term +ℤ pos 2)
          (hear_replies last
            (votes n (cm.current_term +ℤ pos 1))
            (start_election now cm).1
            (run_election_timer later timer (start_election now cm).0).0).0
  unfolding start_election run_election_timer
  stale_votes-win now later last n timer cm started expired some_vote maj =
      let first = start_election now cm in
      let second = start_election later first.0 in
      let fired : (run_election_timer later timer first.0).0 ≡ second.0 = ground arith in
      let lead = hear_replies-Leads last n first.1 second.0 refl some_vote maj in
      let done = λ (c : ConsensusModule C B).
        (hear_replies last (votes n first.1.saved_current_term) first.1 c).0 in
      let two : second.0.current_term ≡ cm.current_term +ℤ pos 2 = ground arith in
      subst (λ c. Leads (cm.current_term +ℤ pos 2) (done c)) (sym fired)
        (record { leads = lead.leads; in_term = lead.in_term ∙ two })

  -- A module whose state is in stable storage starts an election in the next term with a vote for the module itself, and neither is in
  -- stable storage: after a crash at once the module is back in the term before, with the vote of
  -- before.
  pub start_election-not_durable :
      (gob : Gob C B) (now : ℕ) (cm : ConsensusModule C B)
      → IsDurable gob cm
      → ((start_election now cm).0.current_term ≡ cm.current_term +ℤ pos 1)
        × ((start_election now cm).0.voted_for ≡ cm.id)
        × (new_consensus_module gob cm.id cm.peer_ids (start_election now cm).0.storage
            ≡ some (restarted gob cm.id cm.peer_ids cm))
  unfolding start_election
  start_election-not_durable gob now cm d =
      (refl, refl, new_consensus_module-IsDurable gob cm.id cm.peer_ids cm d)
