-- ===== src/Tests/Steps.antt =====
-- Runs of one module of raft/part3/raft.go.
use go_distributed_system.Base.{
  ℕ, zero, suc, ◌≡◌, refl, sym, ap, ◌∙◌, Bool, false, some_inj, List, [], take, arith,
}
use go_distributed_system.Raft.State.{
  ConsensusModule, CommitEntry, AppendEntriesReply, RequestVoteReply, no_append_reply,
}
use go_distributed_system.Raft.Election.{Election, observe_term}
use go_distributed_system.Raft.Persist.{persist_to_storage}
use go_distributed_system.Raft.Append.{append_entries, answer_append, prev_matches, insert_entries}
use go_distributed_system.Raft.Append.Effect.{start_of}
use go_distributed_system.Raft.Deliver.{commit_chan_sender}
use go_distributed_system.Raft.Deliver.Order.{reported, numbered, delivered_count, IsIndexed}
use go_distributed_system.Raft.Steps.{Reach, here, next, append_request, delivered}
use go_distributed_system.Raft.Steps.Stays.{Stays, CommittedAgrees}
use go_distributed_system.Raft.Steps.Committed.{Reach-Stays}
use go_distributed_system.Raft.Steps.Deliveries.{sent_by, delivered_in_order}
use go_distributed_system.Tests.Clusters.{Blob, keep_all, from_some, full_follower, whole_log}

full_follower-IsIndexed : IsIndexed full_follower
full_follower-IsIndexed = record {
  applied_low = omega arith;
  applied_high = omega arith;
  commit_high = omega arith;
}

-- Server 1 has committed one of its two entries. It gets the whole log again, with both committed.
whole_log-CommittedAgrees : CommittedAgrees whole_log full_follower
unfolding start_of
whole_log-CommittedAgrees zero o n lt at_o at_n = ap (λ e. e.term) (some_inj (sym at_o ∙ at_n))
whole_log-CommittedAgrees (suc i) o n lt at_o at_n = absurd (omega arith)

abbrev caught_up : ConsensusModule ℕ Blob × AppendEntriesReply × Bool
caught_up =
    from_some (full_follower, no_append_reply, false)
      (append_entries keep_all 5 whole_log full_follower)

abbrev sent : ConsensusModule ℕ Blob × List (CommitEntry ℕ)
sent = from_some (full_follower, []) (commit_chan_sender caught_up.0)

abbrev AnyReply : RequestVoteReply → Election → ConsensusModule ℕ Blob → Type 0
AnyReply _ _ _ = Unit {0}

run : Reach keep_all CommittedAgrees AnyReply full_follower sent.0
unfolding append_entries commit_chan_sender persist_to_storage answer_append observe_term
    prev_matches insert_entries
run =
    next
      (next here (
        append_request 5 whole_log {reply = caught_up.1} {ready = caught_up.2}
          whole_log-CommittedAgrees refl))
      (delivered {out = sent.1} refl)

Reach-Stays_example : Stays full_follower sent.0
Reach-Stays_example = Reach-Stays keep_all full_follower-IsIndexed run

delivered_in_order_example :
    reported (sent_by run) ≡ numbered 0 (take (delivered_count sent.0) sent.0.log)
delivered_in_order_example = delivered_in_order full_follower-IsIndexed refl run
