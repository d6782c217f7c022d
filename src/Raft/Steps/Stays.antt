-- ===== src/Raft/Steps/Stays.antt =====
-- That committed entries stay, as a relation of two states, and that the AppendEntries handler keeps
-- it if the request contradicts none of them.
use go_distributed_system.Base.{
  int_eq, ℕ, ◌+◌, ◌<◌, ◌≤◌, ◌≡◌, ap, ◌≤ℤ◌, Bool, true, false, some, length, get_elem?, take,
  length-take, arith,
}
use go_distributed_system.Raft.State.{
  is_dead, ConsensusModule, LogEntry, AppendEntriesArgs, AppendEntriesReply,
}
use go_distributed_system.Raft.Persist.{Gob}
use go_distributed_system.Raft.Append.{append_entries}
use go_distributed_system.Raft.Append.Effect.{start_of, append_entries-Handled}
use go_distributed_system.Raft.Append.Replication.{append_entries_keeps}
use go_distributed_system.Raft.Deliver.Order.{IsIndexed, committed_count}

module _ {C B : Type 0} where
  -- No new entry is of another term than the committed entry for its place.
  abbrev pub CommittedAgrees : AppendEntriesArgs C → ConsensusModule C B → Type 0
  CommittedAgrees args cm =
      (i : ℕ) (o n : LogEntry C)
      → start_of args + i < committed_count cm
      → get_elem? cm.log (start_of args + i) ≡ some o
      → get_elem? args.entries i ≡ some n
      → o.term ≡ n.term

  -- The commit index does not fall, and the entries that were committed are still in the log.
  pub record Stays (cm cm' : ConsensusModule C B) : Type 0 where
    pub indexed : IsIndexed cm'
    pub grows : cm.commit_index ≤ℤ cm'.commit_index
    pub prefix : take (committed_count cm) cm'.log ≡ take (committed_count cm) cm.log

module _ {C B : Type 0} (gob : Gob C B) (now : ℕ) (args : AppendEntriesArgs C)
    (cm : ConsensusModule C B) {cm' : ConsensusModule C B} {reply : AppendEntriesReply}
    {ready : Bool} (ok : IsIndexed cm) (agree : CommittedAgrees args cm)
    (alive : is_dead cm.state ≡ false)
    (handled : append_entries gob now args cm ≡ some (cm', reply, ready)) where
  pub accepted-Stays : reply.success ≡ true → Stays cm cm'
  accepted-Stays accepted =
      let o = append_entries-Handled gob now args cm alive handled in
      let k = committed_count cm in
      let in_log : k ≤ length cm.log = ground arith in
      let kept = append_entries_keeps gob now args cm alive handled accepted k in_log agree in
      let long : k ≤ length cm'.log =
        omega (arith, length-take k cm'.log, length-take k cm.log, ap length kept) in
      record {
        indexed = record {
          applied_low = ground (arith, o.applied_kept);
          applied_high = ground (arith, o.applied_kept, o.accepted_commit);
          commit_high = ground (arith, o.accepted_commit);
        };
        grows = ground (arith, o.accepted_commit);
        prefix = kept;
      }

  pub refused-Stays : reply.success ≡ false → Stays cm cm'
  refused-Stays refused =
      let o = append_entries-Handled gob now args cm alive handled in
      let same_log = o.refused_log refused in
      let same_commit = o.refused_commit refused in
      record {
        indexed = record {
          applied_low = ground (arith, o.applied_kept);
          applied_high = ground (arith, o.applied_kept, same_commit);
          commit_high = ground (arith, same_commit, ap length same_log);
        };
        grows = ground (arith, same_commit);
        prefix = ap (take (committed_count cm)) same_log;
      }
