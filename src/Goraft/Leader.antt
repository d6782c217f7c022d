-- ===== src/Goraft/Leader.antt =====
-- goraft/raft.go: what a leader does: `Apply`, `appendEntries`, `heartbeat` and `advanceCommitIndex`. `run` is the
-- `Apply` of the user's state machine. A call of the network splits a function in two.
pub mod Commit
pub mod Replicate
pub mod Progress
pub mod Advance
use go_distributed_system.Base.{
  ℕ, zero, suc, ◌+◌, ◌-◌, ◌*◌, ◌/◌, ◌%◌, ◌^◌, Bool, true, false, not, ◌&&◌, ◌||◌, Option, none,
  some, List, [], ◌∷◌, ◌++◌, map, length, get_elem?, set, take, drop, leb, ltb, nat_beq,
  if◌then◌else◌, ◌>>=◌,
}
use go_distributed_system.Goraft.State.{
  Entry, ClusterMember, ServerState, Server, Clock, leader_state, follower_state, candidate_state,
  increment, decrement, max,
}
use go_distributed_system.Goraft.Disk.{persist}
use go_distributed_system.Goraft.Votes.{others, update_term}
use go_distributed_system.Goraft.Append.{AppendEntriesRequest, AppendEntriesResponse}

abbrev pub max_append_entries_batch : ℕ
max_append_entries_batch = 8000

unfoldable pub is_leader : ServerState → Bool
is_leader leader_state = true
is_leader follower_state = false
is_leader candidate_state = false

-- The entry of a command, with the channel on which its caller waits.
unfoldable pub command_entry : ℕ → List ℕ × ℕ → Entry
command_entry term c = record { command = c.0; term = term; result = some c.1 }

-- The entries behind the index next, where the log has it.
unfoldable pub new_entries : ℕ → List Entry → List Entry
new_entries next log =
    take max_append_entries_batch (if leb next (length log - 1) then drop next log else [])

-- A member of the cluster after it has accepted a request, and after it has refused one.
unfoldable pub accepted_member : AppendEntriesRequest → ClusterMember → ClusterMember
accepted_member req c =
    let next = max ((req.prev_log_index + length req.entries + 1) % 2 ^ 64) 1 in
    record c { next_index = next; match_index = decrement next }

unfoldable pub refused_member : ClusterMember → ClusterMember
refused_member c = record c { next_index = max (decrement c.next_index) 1 }

-- The loop over the cluster from member j on: what is left of the quorum for index i.
unfoldable pub missing_matches : ℕ → ℕ → ℕ → ℕ → List ClusterMember → ℕ
missing_matches own i j quorum [] = quorum
missing_matches own i j quorum (c ∷ cs) =
    let counted = missing_matches own i (suc j) (quorum - 1) cs in
    let passed = missing_matches own i (suc j) quorum cs in
    if nat_beq quorum 0 then 0 else if nat_beq j own || leb i c.match_index then counted else passed

-- The loop over the indices, from i down to the one behind the commit index.
unfoldable pub commit_loop : ℕ → List ClusterMember → ℕ → ℕ → ℕ
commit_loop own cs commit_index zero = commit_index
commit_loop own cs commit_index (suc i) =
    let rest = commit_loop own cs commit_index i in
    if ltb commit_index (suc i)
    then (if nat_beq (missing_matches own (suc i) 0 (length cs / 2 + 1) cs) 0 then suc i else rest)
    else commit_index

module _ {M : Type 0} where
  -- `Apply` up to where it waits: false is `ErrApplyToLeader`.
  unfoldable pub apply : List (List ℕ × ℕ) → Server M → Option (Server M × Bool)
  apply commands s =
      let entries = map (command_entry s.current_term) commands in
      if is_leader s.state
      then (do
        s1 ← persist true (length commands) (record s { log = s.log ++ entries })
        some (s1, true))
      else some (s, false)

  -- `appendEntries`: the request to a member, and what is done with its response. The entries of the
  -- request keep their channels, which gob does not send.
  unfoldable pub append_request : ℕ → Server M → Option AppendEntriesRequest
  append_request i s = do
    c ← get_elem? s.cluster i
    prev ← get_elem? s.log (decrement c.next_index)
    own ← get_elem? s.cluster s.cluster_index
    some (record {
      term = s.current_term;
      leader_id = own.id;
      prev_log_index = decrement c.next_index;
      prev_log_term = prev.term;
      entries = new_entries c.next_index s.log;
      leader_commit = s.commit_index;
    })

  unfoldable pub record_response :
      ℕ → AppendEntriesRequest → AppendEntriesResponse → Server M → Option (Server M)
  record_response i req rsp s = do
    c ← get_elem? s.cluster i
    some (record s {
      cluster = set s.cluster i (if rsp.success then accepted_member req c else refused_member c);
    })

  unfoldable pub handle_append_response :
      Clock → ℕ → AppendEntriesRequest → AppendEntriesResponse → Server M → Option (Server M)
  handle_append_response clock i req rsp s = do
    r ← update_term clock rsp.term s
    if r.1 || (not (nat_beq rsp.term req.term) && is_leader (r.0).state)
        then some r.0
        else record_response i req rsp r.0

  -- `heartbeat`, which reads the time twice, with the members to which requests are then made.
  unfoldable pub heartbeat : ℕ → ℕ → Server M → Server M × List ℕ
  heartbeat now later s =
      if ltb s.heartbeat_timeout now
      then (
        record s { heartbeat_timeout = later + s.heartbeat_ms * 1000000 },
        others s.cluster_index 0 s.cluster,
      )
      else (s, [])

  -- The first half of `advanceCommitIndex`.
  unfoldable pub advance_quorum : Server M → Server M
  advance_quorum s =
      if is_leader s.state
      then record s {
        commit_index = commit_loop s.cluster_index s.cluster s.commit_index (length s.log - 1);
      }
      else s

  -- The second half, with the result that is sent to a caller.
  unfoldable pub apply_next :
      {R : Type 0} → (List ℕ → M → M × R) → Server M → Option (Server M × Option (ℕ × R))
  apply_next run s =
      let applied : Server M = record s { last_applied = increment s.last_applied } in
      if ltb s.commit_index s.last_applied then some (s, none) else (do
        e ← get_elem? s.log s.last_applied
        let r = run e.command s.statemachine
        some (
            if nat_beq (length e.command) 0 then (applied, none) else (
              record applied { statemachine = r.0 },
              elim e.result [ none ↦ none | some c ↦ some (c, r.1) ],
            )))

  unfoldable pub advance_commit_index :
      {R : Type 0} → (List ℕ → M → M × R) → Server M → Option (Server M × Option (ℕ × R))
  advance_commit_index run s = apply_next run (advance_quorum s)
