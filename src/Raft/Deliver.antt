-- ===== src/Raft/Deliver.antt =====
-- raft/part3/raft.go: `commitChanSender`, which reports committed entries to the client.
pub mod Order
use go_distributed_system.Base.{
  ◌-◌, ℤ, pos, ◌+ℤ◌, nat?, Option, none, some, List, [], ◌∷◌, length, take, drop, leb, ltb_ℤ,
  if◌then◌else◌, ◌>>=◌,
}
use go_distributed_system.Raft.State.{LogEntry, CommitEntry, ConsensusModule}

module _ {C : Type 0} where
  -- `log[lo:hi]`. A bound past the length is `none`, also below the capacity of Go's slice.
  unfoldable pub slice : List (LogEntry C) → ℤ → ℤ → Option (List (LogEntry C))
  slice log lo hi = do
    from ← nat? lo
    to ← nat? hi
    if leb to (length log) then some (take (to - from) (drop from log)) else none

  -- The loop over the entries; `index` is `savedLastApplied + i + 1`.
  unfoldable pub commit_entries : ℤ → ℤ → List (LogEntry C) → List (CommitEntry C)
  commit_entries term index [] = []
  commit_entries term index (e ∷ es) =
      record { command = e.command; index = index; term = term }
      ∷ commit_entries term (index +ℤ pos 1) es

module _ {C B : Type 0} where
  -- One round for one notification: the new state, and what goes out on the channel.
  unfoldable pub commit_chan_sender :
      ConsensusModule C B → Option (ConsensusModule C B × List (CommitEntry C))
  unfolding slice commit_entries
  commit_chan_sender cm =
      if ltb_ℤ cm.last_applied cm.commit_index
      then (do
        entries ← slice cm.log (cm.last_applied +ℤ pos 1) (cm.commit_index +ℤ pos 1)
        some (
          record cm { last_applied = cm.commit_index },
          commit_entries cm.current_term (cm.last_applied +ℤ pos 1) entries,
        ))
      else some (cm, [])
