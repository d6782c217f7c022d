-- ===== src/Raft/Leader/Requests.antt =====
-- What a leader sends, and what a peer that accepts it then has.
use go_distributed_system.Base.{
  subst, sym, some_inj, ℕ, zero, suc, ◌+◌, ◌-◌, ◌≤◌, ◌≡◌, refl, ◌∙◌, ℤ, pos, minus_one, ◌<ℤ◌, ◌≤ℤ◌,
  ◌+ℤ◌, ◌-ℤ◌, Bool, true, false, some, List, length, get_elem?, get_elem?_in_range, get_elem?-drop,
  length-drop, drop, arith,
}
use go_distributed_system.Raft.State.{
  LogEntry, ConsensusModule, AppendEntriesArgs, AppendEntriesReply, is_dead,
}
use go_distributed_system.Raft.Persist.{Gob}
use go_distributed_system.Raft.Append.{prev_matches, append_entries}
use go_distributed_system.Raft.Append.Effect.{start_of}
use go_distributed_system.Raft.Append.Conflict.{conflict_index-le}
use go_distributed_system.Raft.Append.Replication.{append_entries_terms}
use go_distributed_system.Raft.Leader.{
  read_or_zero, append_entries_args, next_after_conflict, last_index_of_term,
}
use go_distributed_system.Raft.Leader.Commit.{CommitInLog}

module _ {C : Type 0} where
  prev_matches_first :
      (log : List (LogEntry C)) (t : ℤ) → prev_matches log (pos 0 -ℤ pos 1) t ≡ some true
  unfolding prev_matches
  prev_matches_first log t = ground arith

  prev_matches_later :
      (log : List (LogEntry C)) (n : ℕ) (e : LogEntry C)
      → suc n ≤ length log
      → get_elem? log n ≡ some e
      → prev_matches log (pos (suc n) -ℤ pos 1) e.term ≡ some true
  unfolding prev_matches
  prev_matches_later log n e le found = ground arith

  -- The result is -1, or the place of an entry.
  last_index_of_term-lt :
      (log : List (LogEntry C)) (term : ℤ) (k : ℕ)
      → (minus_one ≤ℤ last_index_of_term log term k) × (last_index_of_term log term k <ℤ pos k)
  unfolding last_index_of_term
  last_index_of_term-lt log term zero = omega arith
  last_index_of_term-lt log term (suc k) = ground (arith, last_index_of_term-lt log term k)

module _ {C B : Type 0} where
  -- The request that the leader builds when the next index of the peer is n.
  pub record IsRequest (saved : ℤ) (n : ℕ) (cm : ConsensusModule C B) (args : AppendEntriesArgs C)
      : Type 0 where
    pub term_is : args.term ≡ saved
    pub leader_is : args.leader_id ≡ cm.id
    pub prev_is : args.prev_log_index ≡ pos n -ℤ pos 1
    pub entries_are : args.entries ≡ drop n cm.log
    pub commit_is : args.leader_commit ≡ cm.commit_index
    -- the leader's own log has the entry that the request names
    pub prev_ok : prev_matches cm.log args.prev_log_index args.prev_log_term ≡ some true
    -- the request carries the log up to the commit index that it announces
    pub commit_covered : args.leader_commit ≤ℤ args.prev_log_index +ℤ pos (length args.entries)

  abbrev request_of : ℤ → ℕ → ℤ → ConsensusModule C B → AppendEntriesArgs C
  request_of saved n prev_term cm = record {
    term = saved;
    leader_id = cm.id;
    prev_log_index = pos n -ℤ pos 1;
    prev_log_term = prev_term;
    entries = drop n cm.log;
    leader_commit = cm.commit_index;
  }

  args_first :
      (saved peer : ℤ) (cm : ConsensusModule C B)
      → read_or_zero peer cm.next_index ≡ pos 0
      → append_entries_args saved peer cm ≡ some (request_of saved 0 minus_one cm)
  unfolding append_entries_args
  args_first saved peer cm h = rw h (ground arith)

  args_later :
      (saved peer : ℤ) (n : ℕ) (e : LogEntry C) (cm : ConsensusModule C B)
      → read_or_zero peer cm.next_index ≡ pos (suc n)
      → suc n ≤ length cm.log
      → get_elem? cm.log n ≡ some e
      → append_entries_args saved peer cm ≡ some (request_of saved (suc n) e.term cm)
  unfolding append_entries_args
  args_later saved peer n e cm h le found = rw h (ground arith)

  request_of-IsRequest :
      (saved : ℤ) (n : ℕ) (prev_term : ℤ) (cm : ConsensusModule C B)
      → n ≤ length cm.log
      → CommitInLog cm
      → prev_matches cm.log (pos n -ℤ pos 1) prev_term ≡ some true
      → IsRequest saved n cm (request_of saved n prev_term cm)
  request_of-IsRequest saved n prev_term cm le c ok = record {
    term_is = refl;
    leader_is = refl;
    prev_is = refl;
    entries_are = refl;
    commit_is = refl;
    prev_ok = ok;
    commit_covered = ground (arith, length-drop n cm.log);
  }

  -- With the next index of the peer and the commit index in the log, the leader builds its request
  -- without a panic: it carries the log from the next index on and the commit index, and the entry
  -- before is named as the leader's log has it.
  pub append_entries_args-IsRequest :
      (saved peer : ℤ) (n : ℕ) (cm : ConsensusModule C B)
      → read_or_zero peer cm.next_index ≡ pos n
      → n ≤ length cm.log
      → CommitInLog cm
      → (args : AppendEntriesArgs C) × (append_entries_args saved peer cm ≡ some args)
        × IsRequest saved n cm args
  append_entries_args-IsRequest saved peer zero cm h le c = (
    request_of saved 0 minus_one cm,
    args_first saved peer cm h,
    request_of-IsRequest saved 0 minus_one cm le c (prev_matches_first cm.log minus_one),
  )
  append_entries_args-IsRequest saved peer (suc n) cm h le c =
      let (e, found) = get_elem?_in_range cm.log n le in
      (
        request_of saved (suc n) e.term cm,
        args_later saved peer n e cm h le found,
        request_of-IsRequest saved (suc n) e.term cm le c (prev_matches_later cm.log n e le found),
      )

  built-IsRequest :
      (saved peer : ℤ) (n : ℕ) (cm : ConsensusModule C B) (args : AppendEntriesArgs C)
      → read_or_zero peer cm.next_index ≡ pos n
      → n ≤ length cm.log
      → CommitInLog cm
      → append_entries_args saved peer cm ≡ some args
      → IsRequest saved n cm args
  built-IsRequest saved peer n cm args h le c built =
      let (args', e, ok) = append_entries_args-IsRequest saved peer n cm h le c in
      subst (λ a. IsRequest saved n cm a) (some_inj (sym e ∙ built)) ok

-- The peer's side of a request that the leader has built.
module _ {C B : Type 0} (gob : Gob C B) (now : ℕ) (saved peer_id : ℤ) (n : ℕ)
    (leader peer : ConsensusModule C B) (args : AppendEntriesArgs C)
    (next_is : read_or_zero peer_id leader.next_index ≡ pos n) (fits : n ≤ length leader.log)
    (in_log : CommitInLog leader) (built : append_entries_args saved peer_id leader ≡ some args)
    {peer' : ConsensusModule C B} {reply : AppendEntriesReply} {ready : Bool}
    (alive : is_dead peer.state ≡ false)
    (handled : append_entries gob now args peer ≡ some (peer', reply, ready))
    (accepted : reply.success ≡ true) where
  request : IsRequest saved n leader args
  request = built-IsRequest saved peer_id n leader args next_is fits in_log built

  start_is : start_of args ≡ n
  unfolding start_of
  start_is = ground (arith, request.prev_is)

  -- A peer that is not dead and accepts the request that the leader built for it, with the peer's
  -- next index and the commit index in the leader's log, holds from that next index on, at each
  -- index of the leader's log, an entry of the same term as the leader's.
  pub replicated :
      (i : ℕ) (e : LogEntry C)
      → n ≤ i
      → get_elem? leader.log i ≡ some e
      → (f : LogEntry C) × (get_elem? peer'.log i ≡ some f) × (f.term ≡ e.term)
  replicated i e lo found =
      let at : start_of args + (i - n) ≡ i = omega (arith, start_is) in
      let here : get_elem? args.entries (i - n) ≡ some e = rw request.entries_are (
        get_elem?-drop n leader.log (i - n)
        ∙ subst (λ k. get_elem? leader.log k ≡ some e) (omega arith) found) in
      let (f, at_f, same) =
        append_entries_terms gob now args peer alive handled accepted (i - n) here in
      (f, subst (λ k. get_elem? peer'.log k ≡ some f) at at_f, same)

module _ {C B : Type 0} where
  -- The next index after a refusal lies in the leader's log if the refusal's conflict index does.
  pub next_after_conflict_bounds :
      (reply : AppendEntriesReply) (cm : ConsensusModule C B)
      → pos 0 ≤ℤ reply.conflict_index
      → reply.conflict_index ≤ℤ pos (length cm.log)
      → (pos 0 ≤ℤ next_after_conflict reply cm)
        × (next_after_conflict reply cm ≤ℤ pos (length cm.log))
  unfolding next_after_conflict
  next_after_conflict_bounds reply cm lo hi =
      ground (arith, last_index_of_term-lt cm.log reply.conflict_term (length cm.log))

module _ {C B : Type 0} (gob : Gob C B) (now : ℕ) (saved peer_id : ℤ) (n : ℕ)
    (leader peer : ConsensusModule C B) (args : AppendEntriesArgs C)
    (next_is : read_or_zero peer_id leader.next_index ≡ pos n) (fits : n ≤ length leader.log)
    (in_log : CommitInLog leader) (built : append_entries_args saved peer_id leader ≡ some args)
    {peer' : ConsensusModule C B} {reply : AppendEntriesReply} {ready : Bool}
    (alive : is_dead peer.state ≡ false)
    (handled : append_entries gob now args peer ≡ some (peer', reply, ready))
    (refused : reply.success ≡ false) (in_term : args.term ≡ peer'.current_term) where
  -- When a peer that is not dead refuses the request that the leader built for it, with the peer's
  -- next index and the commit index in the leader's log, and does so in the term of the request,
  -- the next index that the leader computes from the refusal lies in the leader's log.
  pub refusal_keeps_next_in_log :
      (pos 0 ≤ℤ next_after_conflict reply leader)
      × (next_after_conflict reply leader ≤ℤ pos (length leader.log))
  refusal_keeps_next_in_log =
      let request = built-IsRequest saved peer_id n leader args next_is fits in_log built in
      let (lo, hi) = conflict_index-le gob now args peer alive handled refused in_term in
      next_after_conflict_bounds reply leader lo (ground (arith, request.prev_is))
