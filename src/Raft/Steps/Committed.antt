-- ===== src/Raft/Steps/Committed.antt =====
-- Committed entries stay, through the steps of one process whose environment contradicts none of
-- them, whatever replies to vote requests it hears.
use mathlib.Core.List.{append-nil}
use go_distributed_system.Raft.Leader.Commit.{record_success-Commits}
use go_distributed_system.Raft.Election.Votes.{request_vote-Polled}
use go_distributed_system.Raft.Persist.Restart.{persist_to_storage_frame}
use go_distributed_system.Raft.Steps.{
  here, next, timer, vote_request, vote_reply, append_request, append_reply, submitted, delivered,
  stopped, Reach, Step,
}
use go_distributed_system.Raft.Election.{
  Election, grants, run_election_timer, observe_term, handle_vote_reply, cast_vote, start_leader,
  request_vote,
}
use go_distributed_system.Raft.Deliver.{commit_chan_sender}
use go_distributed_system.Raft.Leader.{handle_append_reply, record_success}
use go_distributed_system.Base.{
  refl, ◌==◌, int_eq, take-take, ℕ, ◌≤◌, ◌≡◌, ap, Bool, some, length, take, arith, ℤ, List,
  Bool-cases, inl, inr, ◌++◌, length-append, some_inj, ◌∷◌, >>=-eq-some, ◌⊎◌, sym, [], subst,
  if_true, ◌∙◌, take-append, ◌-◌, ltb_ℤ, ◌&&◌,
}
use go_distributed_system.Raft.State.{
  is_dead, ConsensusModule, LogEntry, AppendEntriesArgs, AppendEntriesReply, CommitEntry, is_leader,
  become_follower, RequestVoteArgs, stop, RequestVoteReply,
}
use go_distributed_system.Raft.Persist.{Gob, submit, persist_to_storage}
use go_distributed_system.Raft.Append.{append_entries}
use go_distributed_system.Raft.Deliver.Order.{IsIndexed, committed_count, commit_chan_sender_lem}
use go_distributed_system.Raft.Steps.Stays.{Stays, CommittedAgrees, accepted-Stays, refused-Stays}

module _ {C B : Type 0} where
  -- Neither the log nor the two indices change.
  pub record Untouched (cm cm' : ConsensusModule C B) : Type 0 where
    pub same_log : cm'.log ≡ cm.log
    pub same_commit : cm'.commit_index ≡ cm.commit_index
    pub same_applied : cm'.last_applied ≡ cm.last_applied

  Untouched-Stays : {cm cm' : ConsensusModule C B} → IsIndexed cm → Untouched cm cm' → Stays cm cm'
  Untouched-Stays {cm = cm} ok u = record {
    indexed = record {
      applied_low = ground (arith, u.same_applied);
      applied_high = ground (arith, u.same_applied, u.same_commit);
      commit_high = ground (arith, u.same_commit, ap length u.same_log);
    };
    grows = ground (arith, u.same_commit);
    prefix = ap (take (committed_count cm)) u.same_log;
  }

  Stays-trans : {a b c : ConsensusModule C B} → Stays a b → Stays b c → Stays a c
  Stays-trans {a = a} {b = b} {c = c} h k = record {
    indexed = k.indexed;
    grows = omega (arith, h.grows, k.grows);
    prefix =
        let less : committed_count a ≤ committed_count b = ground (arith, h.grows) in
        sym (take-take _ _ c.log less)
        ∙ ap (take (committed_count a)) k.prefix
        ∙ take-take _ _ b.log less
        ∙ h.prefix;
  }

  pub reply-cases :
      (now : ℕ) (saved peer ni : ℤ) (sent : ℕ) (reply : AppendEntriesReply)
      (cm : ConsensusModule C B) {cm' : ConsensusModule C B} {moved : Bool}
      → handle_append_reply now saved peer ni sent reply cm ≡ some (cm', moved)
      → Untouched cm cm' ⊎ (record_success peer ni sent cm ≡ some (cm', moved))
  unfolding handle_append_reply become_follower
  reply-cases now saved peer ni sent reply cm h =
      elim (Bool-cases (ltb_ℤ cm.current_term reply.term)) [
        | inl later ↦ inl (ground arith)
        | inr up_to_date ↦ elim (Bool-cases (is_leader cm.state && saved == reply.term)) [
          | inl mine ↦ elim (Bool-cases reply.success) [
            | inl accepted ↦ inr (ground arith)
            | inr refused ↦ inl (ground arith)
          ]
          | inr other ↦ inl (ground arith)
        ]
      ]

  success-Stays :
      (peer ni : ℤ) (sent : ℕ) (cm : ConsensusModule C B) {cm' : ConsensusModule C B} {moved : Bool}
      → IsIndexed cm
      → record_success peer ni sent cm ≡ some (cm', moved)
      → Stays cm cm'
  success-Stays peer ni sent cm ok h =
      let c =
        record_success-Commits peer ni sent cm
          (omega (arith, ok.applied_low, ok.applied_high), ok.commit_high) h in
      record {
        indexed = record {
          applied_low = ground (arith, c.applied_kept);
          applied_high = ground (arith, c.applied_kept, c.grows);
          commit_high = c.in_log.1;
        };
        grows = c.grows;
        prefix = ap (take (committed_count cm)) c.log_kept;
      }

  deliver-Stays :
      (cm : ConsensusModule C B) {cm' : ConsensusModule C B} {out : List (CommitEntry C)}
      → IsIndexed cm
      → commit_chan_sender cm ≡ some (cm', out)
      → Stays cm cm'
  deliver-Stays cm ok h =
      let same = some_inj (sym (commit_chan_sender_lem cm ok) ∙ h) in
      subst (Stays cm) (λ i. (same i).0)
        (record {
          indexed = record {
            applied_low = omega (arith, ok.applied_low, ok.applied_high);
            applied_high = omega arith;
            commit_high = ok.commit_high;
          };
          grows = omega arith;
          prefix = refl;
        })

module _ {C B : Type 0} (gob : Gob C B) where
  pub request_vote-Untouched :
      (now : ℕ) (args : RequestVoteArgs) (cm : ConsensusModule C B) {cm' : ConsensusModule C B}
      {reply : RequestVoteReply}
      → request_vote gob now args cm ≡ some (cm', reply)
      → Untouched cm cm'
  unfolding grants observe_term become_follower cast_vote
  request_vote-Untouched now args cm h = elim (Bool-cases (is_dead cm.state)) [
    | inl gone ↦ unfold request_vote in ground arith
    | inr alive ↦ ground (arith, (request_vote-Polled gob now args cm alive h).framed)
  ]

  append_entries-Stays :
      (now : ℕ) (args : AppendEntriesArgs C) (cm : ConsensusModule C B) {cm' : ConsensusModule C B}
      {reply : AppendEntriesReply} {ready : Bool}
      → IsIndexed cm
      → CommittedAgrees args cm
      → append_entries gob now args cm ≡ some (cm', reply, ready)
      → Stays cm cm'
  append_entries-Stays now args cm {reply = reply} ok agree h =
      elim (Bool-cases (is_dead cm.state)) [
        | inl gone ↦ Untouched-Stays ok (unfold append_entries in ground arith)
        | inr alive ↦ elim (Bool-cases reply.success) [
          | inl accepted ↦ accepted-Stays gob now args cm ok agree alive h accepted
          | inr refused ↦ refused-Stays gob now args cm ok agree alive h refused
        ]
      ]

  abbrev with_entry : C → ConsensusModule C B → ConsensusModule C B
  with_entry command cm =
      let entry : LogEntry C = record { command = command; term = cm.current_term } in
      record cm { log = cm.log ++ entry ∷ [] }

  appended-Stays :
      (command : C) (cm : ConsensusModule C B) {m : ConsensusModule C B}
      → IsIndexed cm
      → m ≡ record (with_entry command cm) { storage = m.storage }
      → Stays cm m
  appended-Stays command cm ok e =
      let entry : LogEntry C = record { command = command; term = cm.current_term } in
      let k = committed_count cm in
      let longer = length-append cm.log (entry ∷ []) in
      let fits : k ≤ length cm.log = ground arith in
      let none_left : k - length cm.log ≡ 0 = omega arith in
      subst (Stays cm) (sym e) (record {
        indexed = record {
          applied_low = ok.applied_low;
          applied_high = ok.applied_high;
          commit_high = omega (arith, ok.commit_high, longer);
        };
        grows = omega arith;
        prefix =
            take-append k cm.log (entry ∷ [])
            ∙ ap (λ n. take k cm.log ++ take n (entry ∷ [])) none_left
            ∙ append-nil (take k cm.log);
      })

  submit-Stays :
      (command : C) (cm : ConsensusModule C B) {cm' : ConsensusModule C B} {index : ℤ}
      → IsIndexed cm
      → submit gob command cm ≡ some (cm', index)
      → Stays cm cm'
  unfolding submit
  submit-Stays command cm ok h = elim (Bool-cases (is_leader cm.state)) [
    | inl lead ↦
        let (m, p, e) =
          >>=-eq-some (persist_to_storage gob (with_entry command cm)) _
            (sym (if_true _ _ lead) ∙ h) in
        subst (Stays cm) (λ i. (some_inj e i).0)
          (appended-Stays command cm ok (persist_to_storage_frame gob (with_entry command cm) p))
    | inr idle ↦ Untouched-Stays ok (ground arith)
  ]

module _ {C B : Type 0} (gob : Gob C B)
    {Heard : RequestVoteReply → Election → ConsensusModule C B → Type 0} where
  pub Step-Stays :
      {cm cm' : ConsensusModule C B}
      → IsIndexed cm
      → Step gob CommittedAgrees Heard cm cm'
      → Stays cm cm'
  unfolding run_election_timer handle_vote_reply start_leader become_follower stop
  Step-Stays ok (timer now t) = Untouched-Stays ok (ground arith)
  Step-Stays {cm = cm} ok (vote_request now args h) =
      Untouched-Stays ok (request_vote-Untouched gob now args cm h)
  Step-Stays ok (vote_reply now reply e fresh) = Untouched-Stays ok (ground arith)
  Step-Stays {cm = cm} ok (append_request now args agree h) =
      append_entries-Stays gob now args cm ok agree h
  Step-Stays {cm = cm} ok (append_reply now saved peer ni sent reply h) =
      elim (reply-cases now saved peer ni sent reply cm h) [
        | inl u ↦ Untouched-Stays ok u
        | inr s ↦ success-Stays peer ni sent cm ok s
      ]
  Step-Stays {cm = cm} ok (submitted command h) = submit-Stays gob command cm ok h
  Step-Stays {cm = cm} ok (delivered h) = deliver-Stays cm ok h
  Step-Stays ok stopped = Untouched-Stays ok (ground arith)

  -- As long as a module runs, from a state in which its indices fit its log, and no request
  -- contradicts a committed entry, its indices go on to fit, its commit index does not fall, and
  -- every entry that was committed is still in its place, whatever replies to vote requests it
  -- hears. (A restart ends the run.)
  pub Reach-Stays :
      {cm cm' : ConsensusModule C B}
      → IsIndexed cm
      → Reach gob CommittedAgrees Heard cm cm'
      → Stays cm cm'
  Reach-Stays ok here = record { indexed = ok; grows = omega arith; prefix = refl }
  Reach-Stays ok (next r s) =
      let before = Reach-Stays ok r in Stays-trans before (Step-Stays before.indexed s)
