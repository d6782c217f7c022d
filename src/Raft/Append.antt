-- ===== src/Raft/Append.antt =====
-- raft/part3/raft.go: the AppendEntries handler.
pub mod Merge
pub mod Effect
pub mod Replication
pub mod Conflict
use go_distributed_system.Base.{
  ℕ, zero, suc, ℤ, pos, ◌+ℤ◌, ◌-ℤ◌, nat?, min_ℤ, minus_one, Bool, true, false, Option, none, some,
  List, ◌++◌, length, get_elem?, take, drop, ltb, ltb_ℤ, leb_ℤ, ◌==◌, if◌then◌else◌, ◌>>=◌, int_eq,
}
use go_distributed_system.Raft.State.{
  LogEntry, ConsensusModule, AppendEntriesArgs, AppendEntriesReply, no_append_reply, is_dead,
  is_follower, at, become_follower,
}
use go_distributed_system.Raft.Persist.{Gob, persist_to_storage}
use go_distributed_system.Raft.Election.{observe_term}

module _ {C : Type 0} where
  -- `none` is the panic on an index below -1.
  unfoldable pub prev_matches : List (LogEntry C) → ℤ → ℤ → Option Bool
  prev_matches log prev_log_index prev_log_term =
      if prev_log_index == minus_one
      then some true
      else if ltb_ℤ prev_log_index (pos (length log))
      then (do e ← at log prev_log_index; some (prev_log_term == e.term))
      else some false

  -- The loop that looks for the insertion point; the fuel is a bound on its rounds.
  -- A read that is out of range is one of the two tests on the lengths.
  unfoldable pub find_insertion : ℕ → List (LogEntry C) → List (LogEntry C) → ℕ → ℕ → ℕ × ℕ
  find_insertion zero log entries log_insert_index new_entries_index =
      (log_insert_index, new_entries_index)
  find_insertion (suc fuel) log entries log_insert_index new_entries_index =
      let rest = find_insertion fuel log entries (suc log_insert_index) (suc new_entries_index) in
      elim (get_elem? log log_insert_index) [
        | none ↦ (log_insert_index, new_entries_index)
        | some old ↦ elim (get_elem? entries new_entries_index) [
          | none ↦ (log_insert_index, new_entries_index)
          | some new ↦ if old.term == new.term then rest else (log_insert_index, new_entries_index)
        ]
      ]

  -- The log after the loop and the `append` that follows it.
  unfoldable pub insert_entries : List (LogEntry C) → ℕ → List (LogEntry C) → List (LogEntry C)
  unfolding find_insertion
  insert_entries log start entries =
      let (log_insert_index, new_entries_index) =
        find_insertion (length entries) log entries start 0 in
      if ltb new_entries_index (length entries)
      then take log_insert_index log ++ drop new_entries_index entries
      else log

  -- The loop down from `PrevLogIndex - 1`, over i + 1; it returns the conflict index.
  unfoldable pub conflict_start : List (LogEntry C) → ℤ → ℕ → Option ℕ
  conflict_start log conflict_term zero = some zero
  conflict_start log conflict_term (suc i) =
      let rest = conflict_start log conflict_term i in
      do e ← get_elem? log i; if e.term == conflict_term then rest else some (suc i)

  -- The conflict index and term of a refusal.
  unfoldable pub conflict_hint : List (LogEntry C) → ℤ → Option (ℤ × ℤ)
  unfolding conflict_start
  conflict_hint log prev_log_index =
      if leb_ℤ (pos (length log)) prev_log_index then some (pos (length log), minus_one) else do
        e ← at log prev_log_index
        prev ← nat? prev_log_index
        start ← conflict_start log e.term prev
        some (pos start, e.term)

module _ {C B : Type 0} where
  -- The second result tells whether the sender of committed entries is notified.
  unfoldable pub update_commit : ℤ → ConsensusModule C B → ConsensusModule C B × Bool
  update_commit leader_commit cm =
      if ltb_ℤ cm.commit_index leader_commit
      then (record cm { commit_index = min_ℤ leader_commit (pos (length cm.log) -ℤ pos 1) }, true)
      else (cm, false)

  -- The branch in which the log holds the entry before the new ones.
  unfoldable pub accept_entries :
      AppendEntriesArgs C
      → ConsensusModule C B
      → Option (ConsensusModule C B × AppendEntriesReply × Bool)
  unfolding update_commit
  accept_entries args cm = do
    start ← nat? (args.prev_log_index +ℤ pos 1)
    let cm1 = record cm { log = insert_entries cm.log start args.entries }
    let (cm2, ready) = update_commit args.leader_commit cm1
    some (cm2, record no_append_reply { success = true }, ready)

  -- The branch in which it does not.
  unfoldable pub refuse_entries :
      AppendEntriesArgs C
      → ConsensusModule C B
      → Option (ConsensusModule C B × AppendEntriesReply × Bool)
  refuse_entries args cm = do
    hint ← conflict_hint cm.log args.prev_log_index
    some (cm, record no_append_reply { conflict_index = hint.0; conflict_term = hint.1 }, false)

  -- A request of the current term: the sender leads it.
  unfoldable pub heed_leader :
      ℕ
      → AppendEntriesArgs C
      → ConsensusModule C B
      → Option (ConsensusModule C B × AppendEntriesReply × Bool)
  unfolding accept_entries refuse_entries
  heed_leader now args cm =
      let cm1 = if is_follower cm.state then cm else become_follower now args.term cm in
      let cm2 = record cm1 { election_reset_event = now } in
      do
        matches ← prev_matches cm2.log args.prev_log_index args.prev_log_term
        if matches then accept_entries args cm2 else refuse_entries args cm2

  -- What is done with the request before the state is persisted.
  unfoldable pub answer_append :
      ℕ
      → AppendEntriesArgs C
      → ConsensusModule C B
      → Option (ConsensusModule C B × AppendEntriesReply × Bool)
  unfolding heed_leader
  answer_append now args cm =
      if args.term == cm.current_term
      then heed_leader now args cm
      else some (cm, no_append_reply, false)

  -- A dead module leaves the zero reply that it was given.
  unfoldable pub append_entries :
      Gob C B
      → ℕ
      → AppendEntriesArgs C
      → ConsensusModule C B
      → Option (ConsensusModule C B × AppendEntriesReply × Bool)
  append_entries gob now args cm =
      if is_dead cm.state then some (cm, no_append_reply, false) else do
        r ← answer_append now args (observe_term now args.term cm)
        cm' ← persist_to_storage gob r.0
        some (cm', record r.1 { term = cm'.current_term }, r.2)
