-- ===== src/Raft/Append/Replication.antt =====
-- What an accepted AppendEntries request leaves in the log.
use go_distributed_system.Base.{
  take-append_left, drop-append_left, get_elem?-append_at, get_elem?-drop, Bool-cases, inl, inr, ℕ,
  ◌+◌, ◌-◌, ◌≤◌, ◌<◌, ◌≡◌, sym, ap, ◌∙◌, Bool, true, false, some, List, ◌++◌, length, get_elem?,
  take, drop, length-take_le, take-append, take-append-drop, length-drop, arith,
}
use go_distributed_system.Raft.State.{
  follower, is_dead, LogEntry, AppendEntriesArgs, AppendEntriesReply, ConsensusModule,
}
use go_distributed_system.Raft.Persist.{Gob}
use go_distributed_system.Raft.Append.{insert_entries, append_entries}
use go_distributed_system.Raft.Append.Merge.{
  merge, insert_entries-eq-merge, merge_terms, merge_idempotent, merge_keeps, Agrees,
}
use go_distributed_system.Raft.Append.Effect.{start_of, append_entries-Handled}

-- The same entries inserted twice at the same place are inserted once.
insert_entries_idempotent :
    {C : Type 0} (log entries : List (LogEntry C)) (start : ℕ)
    → start ≤ length log
    → insert_entries (insert_entries log start entries) start entries
      ≡ insert_entries log start entries
insert_entries_idempotent log entries start h =
    let before = take start log in
    let merged = merge (drop start log) entries in
    let long : length before ≡ start = length-take_le start log h in
    rw (
      insert_entries-eq-merge log entries start,
      insert_entries-eq-merge,
      take-append_left start before merged long,
      drop-append_left start before merged long,
      merge_idempotent,
    )

-- The first k entries stay where no new entry disagrees with the old one for its place.
insert_entries_keeps :
    {C : Type 0} (log entries : List (LogEntry C)) (start k : ℕ)
    → start ≤ length log
    → k ≤ length log
    → Agrees (k - start) (drop start log) entries
    → take k (insert_entries log start entries) ≡ take k log
insert_entries_keeps log entries start k h le agree =
    let before = take start log in
    let rest = drop start log in
    let long : length before ≡ start = length-take_le start log h in
    rw
      (
        insert_entries-eq-merge log entries start,
        take-append k before (merge rest entries),
        long,
        merge_keeps (k - start) rest entries agree (omega (arith, length-drop start log)),
      )
      (sym (rw long at (take-append k before rest)) ∙ ap (take k) (take-append-drop start log))

module _ {C B : Type 0} (gob : Gob C B) (now : ℕ) (args : AppendEntriesArgs C)
    (cm : ConsensusModule C B) {cm' : ConsensusModule C B} {reply : AppendEntriesReply}
    {ready : Bool} (alive : is_dead cm.state ≡ false)
    (handled : append_entries gob now args cm ≡ some (cm', reply, ready))
    (accepted : reply.success ≡ true) where
  -- A module that is not dead and accepts a request is a follower in the request's term. Its log is what it had
  -- before the new entries, and from there on its old entries merged with the new ones.
  pub append_entries-merge :
      (cm'.log ≡ take (start_of args) cm.log ++ merge (drop (start_of args) cm.log) args.entries)
      × (start_of args ≤ length cm.log)
      × (cm'.current_term ≡ args.term)
      × (cm'.state ≡ follower)
  append_entries-merge =
      let o = append_entries-Handled gob now args cm alive handled in
      (
        o.accepted_log accepted ∙ insert_entries-eq-merge cm.log args.entries (start_of args),
        o.accepted_start accepted,
        sym (o.accepted_term accepted),
        o.accepted_state accepted,
      )

  -- After an accepted request the log holds, at each place of a new entry, an entry of its term.
  pub append_entries_terms :
      (i : ℕ) {n : LogEntry C}
      → get_elem? args.entries i ≡ some n
      → (e : LogEntry C) × (get_elem? cm'.log (start_of args + i) ≡ some e) × (e.term ≡ n.term)
  append_entries_terms i h =
      let (log_is, fits, _, _) = append_entries-merge in
      let (e, found, same) = merge_terms (drop (start_of args) cm.log) args.entries i h in
      (
        e,
        rw log_is (
            get_elem?-append_at (start_of args) (take (start_of args) cm.log) _ i
              (length-take_le (start_of args) cm.log fits)
            ∙ found),
        same,
      )

  -- An accepted request leaves the first k entries alone if none of them disagrees in its term with the new
  -- entry for its place.
  pub append_entries_keeps :
      (k : ℕ)
      → k ≤ length cm.log
      → ((i : ℕ) (o n : LogEntry C)
          → start_of args + i < k
          → get_elem? cm.log (start_of args + i) ≡ some o
          → get_elem? args.entries i ≡ some n
          → o.term ≡ n.term)
      → take k cm'.log ≡ take k cm.log
  append_entries_keeps k le agree =
      let o = append_entries-Handled gob now args cm alive handled in
      rw (o.accepted_log accepted) (
        insert_entries_keeps cm.log args.entries (start_of args) k (o.accepted_start accepted) le
          (λ i a b lt ea.
            agree i a b (omega arith) (sym (get_elem?-drop (start_of args) cm.log i) ∙ ea)))

  -- A request that arrives again after a module that is not dead accepted it leaves the log as it is, whatever the
  -- second reply.
  pub append_entries_retry :
      (later : ℕ) {cm'' : ConsensusModule C B} {reply' : AppendEntriesReply} {ready' : Bool}
      → append_entries gob later args cm' ≡ some (cm'', reply', ready')
      → cm''.log ≡ cm'.log
  append_entries_retry later {reply' = reply'} h =
      let o = append_entries-Handled gob now args cm alive handled in
      let again =
        append_entries-Handled gob later args cm' (ap is_dead (o.accepted_state accepted)) h in
      elim (Bool-cases reply'.success) [
        | inl yes_again ↦
            again.accepted_log yes_again
            ∙ rw (o.accepted_log accepted) (
                insert_entries_idempotent cm.log args.entries (start_of args)
                  (o.accepted_start accepted))
        | inr refused ↦ again.refused_log refused
      ]
