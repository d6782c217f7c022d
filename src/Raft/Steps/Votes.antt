-- ===== src/Raft/Steps/Votes.antt =====
-- Terms only grow, and a vote is not taken back, through any steps of one module.
use go_distributed_system.Base.{
  eq_of_parts, pos_part, neg_part, ℕ, ◌≡◌, ◌≢◌, refl, sym, ap, ◌∙◌, ℤ, minus_one, ◌≤ℤ◌, Bool, true,
  false, some, inl, inr, Bool-cases, arith, ltb_ℤ, ◌&&◌, ◌==◌, int_eq,
}
use go_distributed_system.Raft.State.{
  AppendEntriesReply, CmState, is_candidate, is_dead, is_leader, follower, dead, ConsensusModule,
  RequestVoteArgs, RequestVoteReply, AppendEntriesArgs, become_follower, stop,
}
use go_distributed_system.Raft.Persist.{Gob, persist_to_storage, submit}
use go_distributed_system.Raft.Election.{
  Election, run_election_timer, handle_vote_reply, start_leader, observe_term, grants, cast_vote,
  request_vote,
}
use go_distributed_system.Raft.Election.Votes.{
  MayVote, vote_granted_iff, request_vote-Polled, vote_granted_durable,
}
use go_distributed_system.Raft.Append.{answer_append, heed_leader, append_entries}
use go_distributed_system.Raft.Append.Effect.{append_entries-Parts}
use go_distributed_system.Raft.Leader.{handle_append_reply, record_success}
use go_distributed_system.Raft.Deliver.{commit_chan_sender}
use go_distributed_system.Raft.Steps.{
  Step, Reach, here, next, timer, vote_request, vote_reply, append_request, append_reply, submitted,
  delivered, stopped,
}

-- Not campaigning and not leading.
abbrev pub is_quiet : CmState → Bool
is_quiet follower = true
is_quiet dead = true
is_quiet _ = false

module _ {C B : Type 0} where
  -- The term does not shrink, and while it stays a quiet module keeps the vote that it has cast.
  pub record KeepsVote (cm cm' : ConsensusModule C B) : Type 0 where
    pub term_grows : cm.current_term ≤ℤ cm'.current_term
    pub vote_kept :
        cm'.current_term ≡ cm.current_term
        → is_quiet cm.state ≡ true
        → cm.voted_for ≢ minus_one
        → (cm'.voted_for ≡ cm.voted_for) × (is_quiet cm'.state ≡ true)

  -- The answer to a request keeps the term, and a quiet module's vote.
  answer_append-KeepsVote :
      (now : ℕ) (args : AppendEntriesArgs C) (cm : ConsensusModule C B) {cm' : ConsensusModule C B}
      {reply : AppendEntriesReply} {ready : Bool}
      → is_dead cm.state ≡ false
      → answer_append now args cm ≡ some (cm', reply, ready)
      → KeepsVote cm cm'
  unfolding answer_append heed_leader become_follower
  answer_append-KeepsVote now args cm alive h = ground arith

  observe_term-KeepsVote :
      (now : ℕ) (term : ℤ) (cm : ConsensusModule C B) → KeepsVote cm (observe_term now term cm)
  unfolding observe_term become_follower
  observe_term-KeepsVote now term cm = ground arith

  observe_term-alive :
      (now : ℕ) (term : ℤ) (cm : ConsensusModule C B)
      → is_dead cm.state ≡ false
      → is_dead (observe_term now term cm).state ≡ false
  unfolding observe_term become_follower
  observe_term-alive now term cm h = ground arith

  KeepsVote-trans : (a b c : ConsensusModule C B) → KeepsVote a b → KeepsVote b c → KeepsVote a c
  KeepsVote-trans a b c h k = record {
    term_grows = omega (arith, h.term_grows, k.term_grows);
    vote_kept = λ same q v.
        let stays : b.current_term ≡ a.current_term =
          eq_of_parts _ _
            (omega (arith, h.term_grows, k.term_grows, ap pos_part same, ap neg_part same)) in
        let (e1, q1) = h.vote_kept stays q v in
        let (e2, q2) = k.vote_kept (same ∙ sym stays) q1 (λ z. v (sym e1 ∙ z)) in (e2 ∙ e1, q2);
  }

module _ {C B : Type 0} (gob : Gob C B) (now : ℕ) where
  request_vote-KeepsVote :
      (args : RequestVoteArgs) (cm : ConsensusModule C B) {cm' : ConsensusModule C B}
      {reply : RequestVoteReply}
      → request_vote gob now args cm ≡ some (cm', reply)
      → KeepsVote cm cm'
  unfolding grants observe_term become_follower cast_vote
  request_vote-KeepsVote args cm h = elim (Bool-cases (is_dead cm.state)) [
    | inl gone ↦ unfold request_vote in ground arith
    | inr alive ↦ ground (arith, (request_vote-Polled gob now args cm alive h).framed)
  ]

  pub request_vote-follower :
      (args : RequestVoteArgs) (cm : ConsensusModule C B) {cm' : ConsensusModule C B}
      {reply : RequestVoteReply}
      → request_vote gob now args cm ≡ some (cm', reply)
      → cm.state ≡ follower
      → cm'.state ≡ follower
  unfolding grants observe_term become_follower cast_vote
  request_vote-follower args cm h fol =
      ground (arith, (request_vote-Polled gob now args cm (ap is_dead fol) h).framed)

  vote_granted-alive :
      (args : RequestVoteArgs) (cm : ConsensusModule C B) {cm' : ConsensusModule C B}
      {reply : RequestVoteReply}
      → request_vote gob now args cm ≡ some (cm', reply)
      → reply.vote_granted ≡ true
      → is_dead cm.state ≡ false
  unfolding request_vote
  vote_granted-alive args cm h g = ground arith

  append_entries-KeepsVote :
      (args : AppendEntriesArgs C) (cm : ConsensusModule C B) {cm' : ConsensusModule C B}
      {reply : AppendEntriesReply} {ready : Bool}
      → append_entries gob now args cm ≡ some (cm', reply, ready)
      → KeepsVote cm cm'
  append_entries-KeepsVote args cm h = elim (Bool-cases (is_dead cm.state)) [
    | inl gone ↦ unfold append_entries in ground arith
    | inr alive ↦
        let p = append_entries-Parts gob now args cm alive h in
        let seen = observe_term now args.term cm in
        KeepsVote-trans cm p.middle _
          (KeepsVote-trans cm seen p.middle (observe_term-KeepsVote now args.term cm) (
            answer_append-KeepsVote now args seen (observe_term-alive now args.term cm alive)
              p.answered))
          (ground (arith, p.framed))
  ]

  record_success-KeepsVote :
      (peer ni : ℤ) (sent : ℕ) (cm : ConsensusModule C B) {cm' : ConsensusModule C B} {moved : Bool}
      → record_success peer ni sent cm ≡ some (cm', moved)
      → KeepsVote cm cm'
  unfolding record_success
  record_success-KeepsVote peer ni sent cm h = ground arith

  append_reply-KeepsVote :
      (saved peer ni : ℤ) (sent : ℕ) (reply : AppendEntriesReply) (cm : ConsensusModule C B)
      {cm' : ConsensusModule C B} {moved : Bool}
      → handle_append_reply now saved peer ni sent reply cm ≡ some (cm', moved)
      → KeepsVote cm cm'
  unfolding handle_append_reply become_follower
  append_reply-KeepsVote saved peer ni sent reply cm {cm'} {moved} h =
      elim (Bool-cases (ltb_ℤ cm.current_term reply.term)) [
        | inl later ↦ ground arith
        | inr up_to_date ↦ elim (Bool-cases (is_leader cm.state && saved == reply.term)) [
          | inl mine ↦ elim (Bool-cases reply.success) [
            | inl accepted ↦ record_success-KeepsVote peer ni sent cm {moved = moved} (ground arith)
            | inr refused ↦ ground arith
          ]
          | inr other ↦ ground arith
        ]
      ]

  submit-KeepsVote :
      (command : C) (cm : ConsensusModule C B) {cm' : ConsensusModule C B} {index : ℤ}
      → submit gob command cm ≡ some (cm', index)
      → KeepsVote cm cm'
  unfolding submit persist_to_storage
  submit-KeepsVote command cm h = ground arith

module _ {C B : Type 0} where
  -- What a module hears as a candidate is of its latest election. The source does not see to it.
  abbrev pub OfLatestElection : RequestVoteReply → Election → ConsensusModule C B → Type 0
  OfLatestElection _ e cm = is_candidate cm.state ≡ true → cm.current_term ≤ℤ e.saved_current_term

module _ {C B : Type 0} (gob : Gob C B)
    (Allowed : AppendEntriesArgs C → ConsensusModule C B → Type 0) where
  Step-KeepsVote :
      {cm cm' : ConsensusModule C B} → Step gob Allowed OfLatestElection cm cm' → KeepsVote cm cm'
  unfolding run_election_timer handle_vote_reply start_leader become_follower stop
  Step-KeepsVote {cm = cm} (timer now t) = ground arith
  Step-KeepsVote {cm = cm} (vote_request now args {cm' = cm'} h) =
      request_vote-KeepsVote gob now args cm h
  Step-KeepsVote {cm = cm} (vote_reply now reply e fresh) = ground arith
  Step-KeepsVote {cm = cm} (append_request now args ok h) =
      append_entries-KeepsVote gob now args cm h
  Step-KeepsVote {cm = cm} (append_reply now saved peer ni sent reply h) =
      append_reply-KeepsVote gob now saved peer ni sent reply cm h
  Step-KeepsVote {cm = cm} (submitted command h) = submit-KeepsVote gob 0 command cm h
  Step-KeepsVote {cm = cm} (delivered h) = unfold commit_chan_sender in ground arith
  Step-KeepsVote {cm = cm} stopped = ground arith

  -- As long as a module runs and hears as a candidate only replies of its latest election, its
  -- term does not shrink; and as long as the term stays the same, a module that was quiet and had
  -- voted is quiet and has that vote.
  pub Reach-KeepsVote :
      {cm cm' : ConsensusModule C B} → Reach gob Allowed OfLatestElection cm cm' → KeepsVote cm cm'
  Reach-KeepsVote here = record { term_grows = omega arith; vote_kept = λ _ q _. (refl, q) }
  Reach-KeepsVote (next r s) = KeepsVote-trans _ _ _ (Reach-KeepsVote r) (Step-KeepsVote s)

  -- A follower that has granted a vote grants no vote to another candidate of the same term, as
  -- long as its process runs on, and in between, where it is a candidate, it hears no reply to a
  -- vote request of an election that is older than its term.
  pub vote_once :
      (now later : ℕ) (first second : RequestVoteArgs) (a b c d : ConsensusModule C B)
      {reply reply' : RequestVoteReply}
      → a.state ≡ follower
      → first.candidate_id ≢ minus_one
      → request_vote gob now first a ≡ some (b, reply)
      → reply.vote_granted ≡ true
      → Reach gob Allowed OfLatestElection b c
      → request_vote gob later second c ≡ some (d, reply')
      → reply'.vote_granted ≡ true
      → first.term ≡ second.term
      → first.candidate_id ≡ second.candidate_id
  vote_once now later first second a b c d fol real h1 g1 r h2 g2 same =
      let (term_b, vote_b, _) = vote_granted_durable gob now first a (ap is_dead fol) h1 g1 in
      let quiet = ap is_quiet (request_vote-follower gob now first a h1 fol) in
      let alive = vote_granted-alive gob later second c h2 g2 in
      let may = ((vote_granted_iff gob later second c alive h2).0 g2).0 in
      conclude may (Reach-KeepsVote r) term_b vote_b quiet
    where
      conclude :
          MayVote second c
          → KeepsVote b c
          → b.current_term ≡ first.term
          → b.voted_for ≡ first.candidate_id
          → is_quiet b.state ≡ true
          → first.candidate_id ≡ second.candidate_id
      conclude (inl lt) k term_b vote_b quiet = absurd (ground (arith, k.term_grows))
      conclude (inr (at_term, free)) k term_b vote_b quiet =
          let (kept, _) =
            k.vote_kept (at_term ∙ sym same ∙ sym term_b) quiet (λ z. real (sym vote_b ∙ z)) in
          elim free [
            | inl none_yet ↦ absurd (real (sym vote_b ∙ sym kept ∙ none_yet))
            | inr voted ↦ sym vote_b ∙ sym kept ∙ voted
          ]
