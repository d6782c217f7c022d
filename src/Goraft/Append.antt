-- ===== src/Goraft/Append.antt =====
-- goraft/raft.go: `HandleAppendEntriesRequest`. `full i log` says that index i is not below the capacity
-- of the slice `log`, which the Go runtime chooses. `none` is a panic, also that of an `Assert`.
pub mod Merge
pub mod Splice
pub mod Follower
pub mod Follow
pub mod Answer
use go_distributed_system.Base.{
  ℕ, zero, suc, ◌+◌, ◌-◌, Bool, true, false, not, ◌&&◌, ◌||◌, Option, none, some, List, [], ◌∷◌,
  ◌++◌, min, length, get_elem?, take, replicate, leb, ltb, nat_beq, if◌then◌else◌, ◌>>=◌,
}
use go_distributed_system.Goraft.State.{
  Entry, blank_entry, ServerState, Server, Clock, leader_state, follower_state, candidate_state,
  reset_election_timeout,
}
use go_distributed_system.Goraft.Disk.{persist}
use go_distributed_system.Goraft.Votes.{update_term}

pub record AppendEntriesRequest : Type 0 where
  pub term : ℕ
  pub leader_id : ℕ
  pub prev_log_index : ℕ
  pub prev_log_term : ℕ
  pub entries : List Entry
  pub leader_commit : ℕ

pub record AppendEntriesResponse : Type 0 where
  pub term : ℕ
  pub success : Bool

unfoldable pub is_follower : ServerState → Bool
is_follower leader_state = false
is_follower follower_state = true
is_follower candidate_state = false

unfoldable pub is_candidate : ServerState → Bool
is_candidate leader_state = false
is_candidate follower_state = false
is_candidate candidate_state = true

-- `validPreviousLog`
unfoldable pub valid_previous_log : ℕ → ℕ → List Entry → Bool
valid_previous_log prev_log_index prev_log_term log =
    nat_beq prev_log_index 0
    || elim (get_elem? log prev_log_index) [ none ↦ false | some e ↦ nat_beq e.term prev_log_term ]

-- The new slice of i entries, and the copy into it.
unfoldable pub reallocate : ℕ → List Entry → List Entry
reallocate i log = take i log ++ replicate (i - length log) blank_entry

-- The entry at i has another term than the new one.
unfoldable pub conflicts : ℕ → Entry → List Entry → Bool
conflicts i e log = elim (get_elem? log i) [ none ↦ false | some x ↦ not (nat_beq x.term e.term) ]

-- The end of a run of the loop, with the number of entries it appends.
unfoldable pub keep_or_append : ℕ → Entry → List Entry → Option (List Entry × ℕ)
keep_or_append i e log =
    let longer = log ++ (e ∷ []) in
    elim (get_elem? log i) [
      | some x ↦ if nat_beq x.term e.term then some (log, 0) else none
      | none ↦ if nat_beq (length longer) (i + 1) then some (longer, 1) else none
    ]

-- A run of the loop.
unfoldable pub append_entry :
    (ℕ → List Entry → Bool) → ℕ → Entry → List Entry → Option (List Entry × ℕ)
append_entry full i e log =
    let log1 = if full i log then reallocate i log else log in
    let log2 = if conflicts i e log1 then take i log1 else log1 in keep_or_append i e log2

-- The loop from index i on, with the number of new entries up to there.
unfoldable pub append_loop :
    (ℕ → List Entry → Bool) → ℕ → List Entry → List Entry → ℕ → Option (List Entry × ℕ)
append_loop full i [] log n = some (log, n)
append_loop full i (e ∷ es) log n = do
  r ← append_entry full i e log
  append_loop full (suc i) es r.0 (n + r.1)

unfoldable pub advanced_commit : ℕ → ℕ → ℕ → ℕ
advanced_commit leader_commit commit_index log_len =
    if ltb commit_index leader_commit then min leader_commit (log_len - 1) else commit_index

module _ {M : Type 0} where
  -- The handler behind the check of the log.
  unfoldable pub append_valid :
      (ℕ → List Entry → Bool) → AppendEntriesRequest → Server M → Option (Server M)
  append_valid full req s = do
    r ← append_loop full (req.prev_log_index + 1) req.entries s.log 0
    persist (not (nat_beq r.1 0)) r.1 (record s {
      log = r.0;
      commit_index = advanced_commit req.leader_commit s.commit_index (length r.0);
    })

  -- A candidate that hears of the leader of its term follows it.
  unfoldable pub follow_leader : ℕ → Server M → Server M
  follow_leader term s =
      if nat_beq term s.current_term && is_candidate s.state
      then record s { state = follower_state }
      else s

  -- The handler behind `updateTerm` and the change of a candidate.
  unfoldable pub answer_append :
      (ℕ → List Entry → Bool)
      → Clock
      → AppendEntriesRequest
      → Server M
      → Option (Server M × AppendEntriesResponse)
  answer_append full clock req s =
      let refused : AppendEntriesResponse = record { term = s.current_term; success = false } in
      let s1 = reset_election_timeout clock s in
      if not (is_follower s.state) || ltb req.term s.current_term
      then some (s, refused)
      else if not (valid_previous_log req.prev_log_index req.prev_log_term s.log)
      then some (s1, refused)
      else (do
        s2 ← append_valid full req s1
        some (s2, record { term = s.current_term; success = true }))

  unfoldable pub handle_append_entries :
      (ℕ → List Entry → Bool)
      → Clock
      → Clock
      → AppendEntriesRequest
      → Server M
      → Option (Server M × AppendEntriesResponse)
  handle_append_entries full clock clock' req s = do
    r ← update_term clock req.term s
    answer_append full clock' req (follow_leader req.term r.0)
