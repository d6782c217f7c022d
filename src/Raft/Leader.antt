-- ===== src/Raft/Leader.antt =====
-- raft/part3/raft.go: what a leader sends to a peer, and what it does with the reply.
pub mod Commit
pub mod Requests
use go_distributed_system.Base.{
  ℕ, zero, suc, ◌+◌, ◌-◌, ◌*◌, ℤ, pos, ◌+ℤ◌, ◌-ℤ◌, nat?, minus_one, Bool, false, not, ◌&&◌, Option,
  none, some, List, [], ◌∷◌, Map, lookup, insert, length, get_elem?, ltb, ltb_ℤ, leb_ℤ, ◌==◌,
  if◌then◌else◌, ◌>>=◌, int_eq,
}
use go_distributed_system.Raft.State.{
  LogEntry, ConsensusModule, AppendEntriesArgs, AppendEntriesReply, is_leader, at, slice_from,
  become_follower,
}

-- `m[k]`: a key that is not there reads as 0.
abbrev pub read_or_zero : ℤ → Map ℤ ℤ → ℤ
read_or_zero k m = elim (lookup k m) [ none ↦ pos 0 | some v ↦ v ]

-- The peers whose match index reaches i.
unfoldable pub peers_at_least : Map ℤ ℤ → ℤ → List ℤ → ℕ
peers_at_least m i [] = 0
peers_at_least m i (p ∷ ps) =
    let rest = peers_at_least m i ps in if leb_ℤ i (read_or_zero p m) then suc rest else rest

module _ {C : Type 0} where
  -- The loop down the log for the last entry of a term, over i + 1.
  unfoldable pub last_index_of_term : List (LogEntry C) → ℤ → ℕ → ℤ
  last_index_of_term log term zero = minus_one
  last_index_of_term log term (suc i) =
      let rest = last_index_of_term log term i in
      elim (get_elem? log i) [ none ↦ rest | some e ↦ if e.term == term then pos i else rest ]

module _ {C B : Type 0} where
  -- The term under which a round of requests is sent, or `none` where this module does not lead.
  unfoldable pub leader_round : ConsensusModule C B → Option ℤ
  leader_round cm = if is_leader cm.state then some cm.current_term else none

  -- The request to one peer. `none` is the panic of an index that is out of range.
  unfoldable pub append_entries_args : ℤ → ℤ → ConsensusModule C B → Option (AppendEntriesArgs C)
  append_entries_args saved_current_term peer_id cm =
      let ni = read_or_zero peer_id cm.next_index in
      let prev_log_index = ni -ℤ pos 1 in
      do
        prev_log_term ←
            (if leb_ℤ (pos 0) prev_log_index
              then (do e ← at cm.log prev_log_index; some e.term)
              else some minus_one)
        entries ← slice_from cm.log ni
        some (record {
          term = saved_current_term;
          leader_id = cm.id;
          prev_log_index = prev_log_index;
          prev_log_term = prev_log_term;
          entries = entries;
          leader_commit = cm.commit_index;
        })

  -- More than half of the cluster, this module counted, holds the entry at i.
  unfoldable pub has_majority : ConsensusModule C B → ℕ → Bool
  unfolding peers_at_least
  has_majority cm i =
      ltb (length cm.peer_ids + 1) ((1 + peers_at_least cm.match_index (pos i) cm.peer_ids) * 2)

  -- The entry at i is of the current term and on a majority.
  unfoldable pub committable : ConsensusModule C B → ℕ → Bool
  unfolding has_majority
  committable cm i = elim (get_elem? cm.log i) [
    | none ↦ false
    | some e ↦ e.term == cm.current_term && has_majority cm i
  ]

  -- The loop over the log from i on, for the rounds that are left.
  unfoldable pub scan_commit : ConsensusModule C B → ℕ → ℕ → ℤ → ℤ
  scan_commit cm zero i commit_index = commit_index
  scan_commit cm (suc rounds) i commit_index =
      scan_commit cm rounds (suc i) (if committable cm i then pos i else commit_index)

  unfoldable pub advance_commit : ConsensusModule C B → Option (ConsensusModule C B)
  unfolding scan_commit
  advance_commit cm = do
    i ← nat? (cm.commit_index +ℤ pos 1)
    some (record cm { commit_index = scan_commit cm (length cm.log - i) i cm.commit_index })

  unfoldable pub next_after_conflict : AppendEntriesReply → ConsensusModule C B → ℤ
  unfolding last_index_of_term
  next_after_conflict reply cm =
      let last = last_index_of_term cm.log reply.conflict_term (length cm.log) in
      if leb_ℤ (pos 0) reply.conflict_term
      then (if leb_ℤ (pos 0) last then last +ℤ pos 1 else reply.conflict_index)
      else reply.conflict_index

  -- `m[peerId]` after a success, and the commit index that follows from it.
  unfoldable pub record_success :
      ℤ → ℤ → ℕ → ConsensusModule C B → Option (ConsensusModule C B × Bool)
  unfolding advance_commit
  record_success peer_id ni sent cm =
      let next = ni +ℤ pos sent in
      do
        cm' ← advance_commit (record cm {
          next_index = insert peer_id next cm.next_index;
          match_index = insert peer_id (next -ℤ pos 1) cm.match_index;
        })
        some (cm', not (cm'.commit_index == cm.commit_index))

  -- The reply to the request that was sent with `ni` and `sent` entries in the saved term.
  -- The second result tells whether the commit index moved, and both channels are notified.
  unfoldable pub handle_append_reply :
      ℕ
      → ℤ
      → ℤ
      → ℤ
      → ℕ
      → AppendEntriesReply
      → ConsensusModule C B
      → Option (ConsensusModule C B × Bool)
  handle_append_reply now saved_current_term peer_id ni sent reply cm =
      if ltb_ℤ cm.current_term reply.term
      then some (become_follower now reply.term cm, false)
      else if is_leader cm.state && saved_current_term == reply.term
      then (if reply.success
          then record_success peer_id ni sent cm
          else some (
            record cm { next_index = insert peer_id (next_after_conflict reply cm) cm.next_index },
            false,
          ))
      else some (cm, false)
