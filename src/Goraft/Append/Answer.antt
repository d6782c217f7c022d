-- ===== src/Goraft/Append/Answer.antt =====
-- goraft/raft.go: every branch of `HandleAppendEntriesRequest`.
use go_distributed_system.Base.{
  ℕ, ◌+◌, ◌^◌, ◌<◌, ◌≡◌, ◌⊎◌, inl, inr, refl, sym, ◌∙◌, ap, subst, Bool, true, false, not, ◌||◌,
  some, List, length, Bool-cases, if_true, ltb, arith,
}
use go_distributed_system.Goraft.State.{
  Entry, ServerState, Server, Clock, leader_state, follower_state, reset_election_timeout,
}
use go_distributed_system.Goraft.Disk.Slots.{FitAll, Writable}
use go_distributed_system.Goraft.Disk.Invariant.{Kept, Kept-volatile}
use go_distributed_system.Goraft.Votes.Grant.{update_term-Entered}
use go_distributed_system.Goraft.Votes.Returns.{update_term-eq-some}
use go_distributed_system.Goraft.Append.{
  AppendEntriesRequest, AppendEntriesResponse, is_follower, valid_previous_log, follow_leader,
  answer_append, handle_append_entries,
}
use go_distributed_system.Goraft.Append.Follow.{
  valid_previous_log-lt, refused_because, accepted_term, guard_passed, Raised,
  advanced_commit-Raised, Followed, follow_leader-Followed,
}
use go_distributed_system.Goraft.Append.Merge.{IsCapacity}
use go_distributed_system.Goraft.Append.Follower.{merged, append_valid-Accepted}

-- Why a request is refused.
abbrev pub Refusal : AppendEntriesRequest → ℕ → ServerState → List Entry → Type 0
Refusal req current_term st log =
    (req.term < current_term)
    ⊎ (st ≡ leader_state)
    ⊎ (valid_previous_log req.prev_log_index req.prev_log_term log ≡ false)

module _ {M : Type 0} where
  -- How a request is answered: `log` and `commit` are the log and the commit index before.
  pub record Answered (req : AppendEntriesRequest) (log : List Entry) (commit : ℕ) (s' : Server M)
      (rsp : AppendEntriesResponse) : Type 0 where
    pub kept : Kept s'
    pub term_is : rsp.term ≡ s'.current_term
    pub which :
        ((rsp.success ≡ false)
          × (s'.log ≡ log)
          × (s'.commit_index ≡ commit)
          × Refusal req s'.current_term s'.state log)
        ⊎ ((rsp.success ≡ true)
            × (req.term ≡ s'.current_term)
            × (s'.state ≡ follower_state)
            × (valid_previous_log req.prev_log_index req.prev_log_term log ≡ true)
            × (s'.log ≡ merged req.prev_log_index log req.entries)
            × Raised req.leader_commit commit (length s'.log) s'.commit_index)

  answer_append-Answered :
      (full : ℕ → List Entry → Bool) (clock : Clock) (req : AppendEntriesRequest) (s0 s : Server M)
      → Followed req.term s0 s
      → IsCapacity full
      → FitAll req.entries
      → Writable req.entries
      → length s.log + length req.entries < 2 ^ 64
      → (s' : Server M) × (rsp : AppendEntriesResponse) × (answer_append full clock req s
          ≡ some (s', rsp))
        × Answered req s.log s.commit_index s' rsp
  unfolding answer_append reset_election_timeout
  answer_append-Answered full clock req s0 s followed capacity fits writable room =
      let refused : AppendEntriesResponse = record { term = s.current_term; success = false } in
      let s1 = reset_election_timeout clock s in
      let kept1 : Kept s1 =
        Kept-volatile s s.state s.commit_index s.last_applied s1.election_timeout
          s.heartbeat_timeout s.statemachine followed.kept in
      elim (Bool-cases (not (is_follower s.state) || ltb req.term s.current_term)) [
        | inl bad ↦ (
          s,
          refused,
          if_true _ _ bad,
          record {
            kept = followed.kept;
            term_is = refl;
            which = inl (
              refl,
              refl,
              refl,
              elim (refused_because req.term s.current_term s.state followed.no_candidate bad) [
                | inl old ↦ inl old
                | inr leads ↦ inr (inl leads)
              ],
            );
          },
        )
        | inr good ↦
            elim (Bool-cases (valid_previous_log req.prev_log_index req.prev_log_term s.log)) [
              | inr invalid ↦ (
                s1,
                refused,
                rw (good, invalid),
                record {
                  kept = kept1;
                  term_is = refl;
                  which = inl (refl, refl, refl, inr (inr invalid));
                },
              )
              | inl valid ↦
                  let same_term : req.term ≡ s.current_term =
                    accepted_term req.term s.current_term (not (is_follower s.state))
                      followed.reached good in
                  let lt =
                    valid_previous_log-lt req.prev_log_index req.prev_log_term s.log
                      followed.kept.sound.some_entry valid in
                  let (s2, e, accepted) =
                    append_valid-Accepted full req s1 kept1 capacity lt fits writable room in
                  (
                    s2,
                    record { term = s.current_term; success = true },
                    rw (good, valid, e),
                    record {
                      kept = accepted.kept;
                      term_is = sym accepted.same_term;
                      which = inr (
                        refl,
                        same_term ∙ sym accepted.same_term,
                        accepted.same_state ∙ guard_passed s.state _ good,
                        valid,
                        accepted.log_is,
                        subst (Raised req.leader_commit s.commit_index (length s2.log))
                            (sym accepted.commit_is)
                            (advanced_commit-Raised req.leader_commit s.commit_index (length s2.log)
                              accepted.kept.sound.some_entry),
                      );
                    },
                  )
            ]
      ]

  -- A server whose file is up to date answers every request whose term is a uint64 and whose
  -- entries fit in slots and in memory, whatever the capacity of its log, and its file is up to date when it does. A request
  -- that is refused is of an old term, or the server is a leader, or the log lacks the previous
  -- entry, and the log and the commit index then stay. A request that is accepted is of the term
  -- of the server, which is a follower; the log becomes its merge with the entries: it stays up to
  -- the first entry that has another term than the leader's, from where the leader's entries
  -- replace it. The commit index then goes up to the leader's, but not beyond the last entry, and
  -- it stays where the leader's is not greater.
  pub handle_append_entries-Answered :
      (full : ℕ → List Entry → Bool) (clock clock' : Clock) (req : AppendEntriesRequest)
      (s : Server M)
      → Kept s
      → IsCapacity full
      → req.term < 2 ^ 64
      → FitAll req.entries
      → Writable req.entries
      → length s.log + length req.entries < 2 ^ 64
      → (s' : Server M) × (rsp : AppendEntriesResponse) × (handle_append_entries full clock clock'
            req s
          ≡ some (s', rsp))
        × Answered req s.log s.commit_index s' rsp
  unfolding handle_append_entries
  handle_append_entries-Answered full clock clock' req s kept capacity word fits writable room =
      let (s1, moved, entered) = update_term-eq-some clock req.term s kept word in
      let mid = update_term-Entered clock req.term s s1 moved kept word entered in
      let followed = follow_leader-Followed req.term s1 mid.kept mid.reached in
      let s2 = follow_leader req.term s1 in
      let same = followed.same_log ∙ mid.same_log in
      let same_commit = followed.same_commit ∙ mid.same_commit in
      let (s', rsp, answered, how) =
        answer_append-Answered full clock' req s1 s2 followed capacity fits writable
          (omega (arith, ap length same, room)) in
      (
        s',
        rsp,
        rw (entered, answered),
        subst (λ l. Answered req l s.commit_index s' rsp) same
            (subst (λ n. Answered req s2.log n s' rsp) same_commit how),
      )
