-- ===== src/Raft/Steps/Deliveries.antt =====
-- What a process has delivered to its client since it started.
use mathlib.Core.List.{append-nil}
use go_distributed_system.Base.{
  ◌≤◌, ◌≡◌, ◌⊎◌, inl, inr, refl, sym, ◌∙◌, ap, minus_one, pos, ◌+ℤ◌, pos_part, some, some_inj, List,
  [], ◌++◌, take, take-take, Bool-cases, arith, ℕ, ℤ, Bool,
}
use go_distributed_system.Raft.State.{
  ConsensusModule, CommitEntry, RequestVoteReply, AppendEntriesArgs, AppendEntriesReply, is_dead,
  become_follower, stop,
}
use go_distributed_system.Raft.Persist.{Gob, submit, persist_to_storage}
use go_distributed_system.Raft.Append.{append_entries}
use go_distributed_system.Raft.Append.Effect.{append_entries-Handled}
use go_distributed_system.Raft.Leader.{record_success}
use go_distributed_system.Raft.Election.{
  Election, run_election_timer, handle_vote_reply, start_leader,
}
use go_distributed_system.Raft.Deliver.{commit_chan_sender}
use go_distributed_system.Raft.Deliver.Order.{
  IsIndexed, numbered, reported, delivered_count, committed_count, commit_chan_sender_lem,
  round_in_order,
}
use go_distributed_system.Raft.Steps.{
  here, next, timer, vote_request, vote_reply, append_request, append_reply, submitted, delivered,
  stopped, Reach, Step,
}
use go_distributed_system.Raft.Steps.Stays.{CommittedAgrees}
use go_distributed_system.Raft.Steps.Committed.{
  Reach-Stays, Step-Stays, reply-cases, request_vote-Untouched,
}

module _ {C B : Type 0} where
  -- Nothing is applied, and nothing is sent.
  record Silent (cm cm' : ConsensusModule C B) (out : List (CommitEntry C)) : Type 0 where
    same_applied : cm'.last_applied ≡ cm.last_applied
    none_out : out ≡ []

  -- The log up to the last applied index, as the client should get it.
  abbrev pub applied_log : ConsensusModule C B → List (ℤ × C)
  applied_log cm = numbered 0 (take (delivered_count cm) cm.log)

  success-applied :
      (peer ni : ℤ) (sent : ℕ) (cm : ConsensusModule C B) {cm' : ConsensusModule C B} {moved : Bool}
      → record_success peer ni sent cm ≡ some (cm', moved)
      → cm'.last_applied ≡ cm.last_applied
  unfolding record_success
  success-applied peer ni sent cm h = ground arith

module _ {C B : Type 0} (gob : Gob C B) where
  append_entries-applied :
      (now : ℕ) (args : AppendEntriesArgs C) (cm : ConsensusModule C B) {cm' : ConsensusModule C B}
      {reply : AppendEntriesReply} {ready : Bool}
      → append_entries gob now args cm ≡ some (cm', reply, ready)
      → cm'.last_applied ≡ cm.last_applied
  append_entries-applied now args cm h = elim (Bool-cases (is_dead cm.state)) [
    | inl gone ↦ unfold append_entries in ground arith
    | inr alive ↦ (append_entries-Handled gob now args cm alive h).applied_kept
  ]

  submit-applied :
      (command : C) (cm : ConsensusModule C B) {cm' : ConsensusModule C B} {index : ℤ}
      → submit gob command cm ≡ some (cm', index)
      → cm'.last_applied ≡ cm.last_applied
  unfolding submit persist_to_storage
  submit-applied command cm h = ground arith

module _ {C B : Type 0} {gob : Gob C B}
    {Heard : RequestVoteReply → Election → ConsensusModule C B → Type 0} where
  -- What a step sends on the channel to the client.
  abbrev pub out_of :
      {cm cm' : ConsensusModule C B} → Step gob CommittedAgrees Heard cm cm' → List (CommitEntry C)
  out_of (delivered {out = out} h) = out
  out_of other = []

  -- All that a process has sent on that channel.
  abbrev pub sent_by :
      {cm cm' : ConsensusModule C B} → Reach gob CommittedAgrees Heard cm cm' → List (CommitEntry C)
  sent_by here = []
  sent_by (next r s) = sent_by r ++ out_of s

  Step-cases :
      {cm cm' : ConsensusModule C B} (s : Step gob CommittedAgrees Heard cm cm')
      → Silent cm cm' (out_of s) ⊎ (commit_chan_sender cm ≡ some (cm', out_of s))
  unfolding run_election_timer handle_vote_reply start_leader become_follower stop
  Step-cases (timer now t) = inl (record { same_applied = ground arith; none_out = refl })
  Step-cases {cm = cm} (vote_request now args h) = inl (record {
    same_applied = (request_vote-Untouched gob now args cm h).same_applied;
    none_out = refl;
  })
  Step-cases (vote_reply now reply e heard) =
      inl (record { same_applied = ground arith; none_out = refl })
  Step-cases {cm = cm} (append_request now args agree h) =
      inl (record { same_applied = append_entries-applied gob now args cm h; none_out = refl })
  Step-cases {cm = cm} (append_reply now saved peer ni sent reply h) = inl (record {
    same_applied = elim (reply-cases now saved peer ni sent reply cm h) [
      | inl u ↦ u.same_applied
      | inr s ↦ success-applied peer ni sent cm s
    ];
    none_out = refl;
  })
  Step-cases {cm = cm} (submitted command h) =
      inl (record { same_applied = submit-applied gob command cm h; none_out = refl })
  Step-cases (delivered h) = inr h
  Step-cases stopped = inl (record { same_applied = refl; none_out = refl })

  step_in_order :
      {cm cm' : ConsensusModule C B} (out : List (CommitEntry C))
      (s : Step gob CommittedAgrees Heard cm cm')
      → IsIndexed cm
      → reported out ≡ applied_log cm
      → reported (out ++ out_of s) ≡ applied_log cm'
  step_in_order {cm = cm} {cm' = cm'} out s ok before = elim (Step-cases s) [
    | inl silent ↦
        let stays = Step-Stays gob ok s in
        let less : delivered_count cm ≤ committed_count cm = ground (arith, ok.applied_high) in
        let k = delivered_count cm in
        let same : take k cm'.log ≡ take k cm.log =
          sym (take-take _ _ cm'.log less) ∙ ap (take k) stays.prefix ∙ take-take _ _ cm.log less in
        ap reported (ap (λ l. out ++ l) silent.none_out ∙ append-nil out)
        ∙ before
        ∙ sym (
            ap (numbered 0)
              (ap (λ a. take (pos_part (a +ℤ pos 1)) cm'.log) silent.same_applied ∙ same))
    | inr sent ↦
        let same = some_inj (sym (commit_chan_sender_lem cm ok) ∙ sent) in
        round_in_order cm cm' out (out_of s) ok before (λ i. (sym same i).1)
          (λ i. take (delivered_count (same i).0) (same i).0.log)
  ]

  -- What a process has sent to its client since it started, with nothing applied and its indices
  -- in its log, is its log up to the last applied index: each command once, in the order of the
  -- log, and with its index there. The condition is that no request contradicts a committed entry.
  pub delivered_in_order :
      {cm cm' : ConsensusModule C B}
      → IsIndexed cm
      → cm.last_applied ≡ minus_one
      → (r : Reach gob CommittedAgrees Heard cm cm')
      → reported (sent_by r) ≡ numbered 0 (take (delivered_count cm') cm'.log)
  delivered_in_order {cm = cm} ok new here =
      let none_yet : delivered_count cm ≡ 0 = ground arith in
      sym (ap (λ n. numbered 0 (take n cm.log)) none_yet)
  delivered_in_order ok new (next r s) =
      step_in_order (sent_by r) s (Reach-Stays gob ok r).indexed (delivered_in_order ok new r)
