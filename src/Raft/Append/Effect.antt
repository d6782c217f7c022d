-- ===== src/Raft/Append/Effect.antt =====
-- What the AppendEntries handler does to the log, the term and the commit index, on each branch.
use go_distributed_system.Base.{
  ltb_ℤ, pos, pos_part, ◌+ℤ◌, ℕ, ◌≤◌, ◌≡◌, sym, ap, ◌∙◌, Bool, true, false, Option, some, length,
  int_eq, arith, if_false, some_inj, >>=-eq-some, if◌then◌else◌, min_ℤ, ◌-ℤ◌,
}
use go_distributed_system.Raft.State.{
  follower, become_follower, AppendEntriesArgs, AppendEntriesReply, ConsensusModule, is_dead,
}
use go_distributed_system.Raft.Persist.{Gob, persist_to_storage}
use go_distributed_system.Raft.Persist.Restart.{
  persist_to_storage_frame, IsDurable, persist_to_storage-IsDurable,
}
use go_distributed_system.Raft.Election.{observe_term}
use go_distributed_system.Raft.Append.{
  conflict_hint, insert_entries, prev_matches, heed_leader, answer_append, append_entries,
}

-- Where the new entries begin.
unfoldable pub start_of : {C : Type 0} → AppendEntriesArgs C → ℕ
start_of args = pos_part (args.prev_log_index +ℤ pos 1)

module _ {C B : Type 0} (gob : Gob C B) (now : ℕ) (args : AppendEntriesArgs C)
    (cm : ConsensusModule C B) where
  pub record Parts (cm' : ConsensusModule C B) (reply : AppendEntriesReply) (ready : Bool)
      : Type 0 where
    pub middle : ConsensusModule C B
    pub bare : AppendEntriesReply
    pub answered :
        answer_append now args (observe_term now args.term cm) ≡ some (middle, bare, ready)
    pub persisted : persist_to_storage gob middle ≡ some cm'
    pub framed : cm' ≡ record middle { storage = cm'.storage }
    pub replied : reply ≡ record bare { term = cm'.current_term }

  Parts-of :
      (r : ConsensusModule C B × AppendEntriesReply × Bool) (m : ConsensusModule C B)
      {cm' : ConsensusModule C B} {reply : AppendEntriesReply} {ready : Bool}
      → answer_append now args (observe_term now args.term cm) ≡ some r
      → persist_to_storage gob r.0 ≡ some m
      → ◌≡◌ {A = Option (ConsensusModule C B × AppendEntriesReply × Bool)}
          (some (m, record r.1 { term = m.current_term }, r.2))
          (some (cm', reply, ready))
      → Parts cm' reply ready
  Parts-of r m answered persisted e =
      let same = some_inj e in
      record {
        middle = r.0;
        bare = r.1;
        answered = answered ∙ ap (λ b. some (r.0, r.1, b)) (λ i. (same i).2);
        persisted = persisted ∙ ap some (λ i. (same i).0);
        framed = persist_to_storage_frame gob r.0 (persisted ∙ ap some (λ i. (same i).0));
        replied = cc;
      }

  pub append_entries-Parts :
      {cm' : ConsensusModule C B} {reply : AppendEntriesReply} {ready : Bool}
      → is_dead cm.state ≡ false
      → append_entries gob now args cm ≡ some (cm', reply, ready)
      → Parts cm' reply ready
  unfolding append_entries
  append_entries-Parts alive h =
      let (r, answered, h1) =
        >>=-eq-some (answer_append now args (observe_term now args.term cm)) _
          (sym (if_false _ _ alive) ∙ h) in
      let (m, persisted, e) = >>=-eq-some (persist_to_storage gob r.0) _ h1 in
      Parts-of r m answered persisted e

module _ {C B : Type 0} where
  -- The outcome of the handler's body, reading by the reply.
  pub record Answered (args : AppendEntriesArgs C) (cm cm' : ConsensusModule C B)
      (reply : AppendEntriesReply) : Type 0 where
    pub same_term : cm'.current_term ≡ cm.current_term
    pub accepted_term : reply.success ≡ true → args.term ≡ cm.current_term
    pub accepted_state : reply.success ≡ true → cm'.state ≡ follower
    pub accepted_start : reply.success ≡ true → start_of args ≤ length cm.log
    pub accepted_log :
        reply.success ≡ true → cm'.log ≡ insert_entries cm.log (start_of args) args.entries
    pub refused_log : reply.success ≡ false → cm'.log ≡ cm.log
    pub refused_commit : reply.success ≡ false → cm'.commit_index ≡ cm.commit_index
    pub applied_kept : cm'.last_applied ≡ cm.last_applied
    pub accepted_commit :
        reply.success ≡ true
        → cm'.commit_index ≡ (
            if ltb_ℤ cm.commit_index args.leader_commit
            then min_ℤ args.leader_commit (pos (length cm'.log) -ℤ pos 1)
            else cm.commit_index)
    pub refused_prev :
        reply.success ≡ false
        → args.term ≡ cm.current_term
        → prev_matches cm.log args.prev_log_index args.prev_log_term ≡ some false
    pub refused_hint :
        reply.success ≡ false
        → args.term ≡ cm.current_term
        → conflict_hint cm.log args.prev_log_index
          ≡ some (reply.conflict_index, reply.conflict_term)

  pub answer_append-Answered :
      (now : ℕ) (args : AppendEntriesArgs C) (cm : ConsensusModule C B) {cm' : ConsensusModule C B}
      {reply : AppendEntriesReply} {ready : Bool}
      → answer_append now args cm ≡ some (cm', reply, ready)
      → Answered args cm cm' reply
  unfolding answer_append heed_leader become_follower prev_matches start_of
  answer_append-Answered now args cm h = ground arith

  -- The outcome of the whole handler, for a module that is not dead.
  pub record Handled (gob : Gob C B) (args : AppendEntriesArgs C) (cm cm' : ConsensusModule C B)
      (reply : AppendEntriesReply) : Type 0 where
    pub reply_term : reply.term ≡ cm'.current_term
    pub term_is :
        cm'.current_term ≡ (if ltb_ℤ cm.current_term args.term then args.term else cm.current_term)
    pub accepted_term : reply.success ≡ true → args.term ≡ cm'.current_term
    pub accepted_state : reply.success ≡ true → cm'.state ≡ follower
    pub accepted_start : reply.success ≡ true → start_of args ≤ length cm.log
    pub accepted_log :
        reply.success ≡ true → cm'.log ≡ insert_entries cm.log (start_of args) args.entries
    pub refused_log : reply.success ≡ false → cm'.log ≡ cm.log
    pub refused_commit : reply.success ≡ false → cm'.commit_index ≡ cm.commit_index
    pub applied_kept : cm'.last_applied ≡ cm.last_applied
    pub accepted_commit :
        reply.success ≡ true
        → cm'.commit_index ≡ (
            if ltb_ℤ cm.commit_index args.leader_commit
            then min_ℤ args.leader_commit (pos (length cm'.log) -ℤ pos 1)
            else cm.commit_index)
    pub refused_prev :
        reply.success ≡ false
        → args.term ≡ cm'.current_term
        → prev_matches cm.log args.prev_log_index args.prev_log_term ≡ some false
    pub refused_hint :
        reply.success ≡ false
        → args.term ≡ cm'.current_term
        → conflict_hint cm.log args.prev_log_index
          ≡ some (reply.conflict_index, reply.conflict_term)
    pub durable : IsDurable gob cm'

  pub append_entries-Handled :
      (gob : Gob C B) (now : ℕ) (args : AppendEntriesArgs C) (cm : ConsensusModule C B)
      {cm' : ConsensusModule C B} {reply : AppendEntriesReply} {ready : Bool}
      → is_dead cm.state ≡ false
      → append_entries gob now args cm ≡ some (cm', reply, ready)
      → Handled gob args cm cm' reply
  unfolding observe_term become_follower
  append_entries-Handled gob now args cm alive h =
      let p = append_entries-Parts gob now args cm alive h in
      let a = answer_append-Answered now args (observe_term now args.term cm) p.answered in
      record {
        reply_term = ground (arith, p.replied);
        term_is = ground (arith, p.framed, a.same_term);
        accepted_term = ground (arith, p.framed, p.replied, a.same_term, a.accepted_term);
        accepted_state = ground (arith, p.framed, p.replied, a.accepted_state);
        accepted_start = ground (arith, p.framed, p.replied, a.accepted_start);
        accepted_log = ground (arith, p.framed, p.replied, a.accepted_log);
        refused_log = ground (arith, p.framed, p.replied, a.refused_log);
        refused_commit = ground (arith, p.framed, p.replied, a.refused_commit);
        applied_kept = ground (arith, p.framed, a.applied_kept);
        accepted_commit = ground (arith, p.framed, p.replied, a.accepted_commit);
        refused_prev = ground (arith, p.framed, p.replied, a.same_term, a.refused_prev);
        refused_hint = ground (arith, p.framed, p.replied, a.same_term, a.refused_hint);
        durable = persist_to_storage-IsDurable gob p.middle p.persisted;
      }
