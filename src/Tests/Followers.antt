-- ===== src/Tests/Followers.antt =====
-- Replication and restarts of goraft at concrete servers.
use go_distributed_system.Base.{
  ℕ, ◌+◌, ◌<◌, ◌≡◌, inr, refl, Bool, true, Option, none, some, List, [], ◌∷◌, length, take, leb,
  arith,
}
use go_distributed_system.Goraft.State.{
  Entry, blank_entry, Server, leader_state, follower_state, get_voted_for, set_voted_for, decrement,
  reset_election_timeout,
}
use go_distributed_system.Goraft.Disk.{
  page_of, put_entry, put_slot, new_count, new_log_offset, write_entries, write_slots, persist,
  start,
}
use go_distributed_system.Goraft.Disk.Padded.{zero_slot}
use go_distributed_system.Goraft.Disk.Invariant.{Kept}
use go_distributed_system.Goraft.Disk.Restore.{Restored}
use go_distributed_system.Goraft.Votes.{enter_term, update_term}
use go_distributed_system.Goraft.Append.{
  AppendEntriesRequest, AppendEntriesResponse, is_follower, is_candidate, valid_previous_log,
  reallocate, conflicts, keep_or_append, append_entry, append_loop, advanced_commit, append_valid,
  follow_leader, answer_append, handle_append_entries,
}
use go_distributed_system.Goraft.Append.Merge.{IsCapacity}
use go_distributed_system.Goraft.Append.Follower.{merged}
use go_distributed_system.Goraft.Append.Answer.{Answered, handle_append_entries-Answered}
use go_distributed_system.Goraft.Leader.{
  new_entries, append_request, accepted_member, advance_commit_index,
}
use go_distributed_system.Goraft.Leader.Replicate.{terms, exchange-match_index}
use go_distributed_system.Goraft.Leader.Progress.{append_request_later_term}
use go_distributed_system.Goraft.Leader.Advance.{Advanced, advance_commit_index-Advanced}
use go_distributed_system.Goraft.Steps.{append_entries_step, none_yet, one_more, Reach-restart}
use go_distributed_system.Tests.Servers.{
  members, server, server-Kept, clock, fresh, fresh-Kept, copied,
}

-- A slice that has no room behind its end.
abbrev full : ℕ → List Entry → Bool
full i log = leb (length log) i

full-IsCapacity : IsCapacity full
full-IsCapacity i log e = ground arith

abbrev entry : Entry
entry = record { command = 7 ∷ []; term = 1; result = none }

abbrev request : AppendEntriesRequest
request = record {
  term = 1;
  leader_id = 2;
  prev_log_index = 0;
  prev_log_term = 0;
  entries = entry ∷ [];
  leader_commit = 0;
}

handle_append_entries-Answered_example :
    (s' : Server ℕ) × (rsp : AppendEntriesResponse) × (handle_append_entries full clock clock
        request fresh
      ≡ some (s', rsp))
    × Answered request fresh.log fresh.commit_index s' rsp
handle_append_entries-Answered_example =
    handle_append_entries-Answered full clock clock request fresh fresh-Kept full-IsCapacity
      (omega arith) (omega arith, tt) (omega arith, tt) (omega arith)

-- A leader with two entries, the second of which no other member has.
abbrev leader : Server ℕ
leader = record (server leader_state 1 1 1 0 none) { log = blank_entry ∷ entry ∷ [] }

asked : append_request 1 leader ≡ some (record request { leader_id = 1 })
unfolding append_request new_entries decrement
asked = refl

exchange-match_index_example :
    let m =
      (accepted_member
        (record request { leader_id = 1 })
        (record { id = 2; next_index = 1; match_index = 0; voted_for = 1 })).match_index in
    (m ≡ 1)
    × (m < 2)
    × (terms (take (m + 1) (merged 0 fresh.log (entry ∷ []))) ≡ terms (take (m + 1) leader.log))
exchange-match_index_example =
    exchange-match_index 1 (record { id = 2; next_index = 1; match_index = 0; voted_for = 1 })
      (record request { leader_id = 1 }) leader fresh.log asked refl (omega arith) (omega arith)
      (omega arith) (omega arith) refl

abbrev count_up : List ℕ → ℕ → ℕ × ℕ
count_up command total = (total + 1, total)

advance_commit_index-Advanced_example :
    (s' : Server ℕ) × (sent : Option (ℕ × ℕ)) × (advance_commit_index count_up fresh
      ≡ some (s', sent))
    × Advanced count_up fresh s'
advance_commit_index-Advanced_example =
    advance_commit_index-Advanced count_up fresh fresh-Kept (omega arith)

-- A leader of term 1 that is brought to term 2.
abbrev deposed : Server ℕ
deposed = server follower_state 2 0 1 600000000 (some (page_of 2 0 1))

leading-Kept : Kept (server leader_state 1 1 1 0 (some (page_of 1 1 1)))
leading-Kept =
    server-Kept leader_state 1 1 1 0 (some (page_of 1 1 1)) (omega arith) (omega arith) (inr refl)

to_deposed :
    update_term clock 2 (server leader_state 1 1 1 0 (some (page_of 1 1 1))) ≡ some (deposed, true)
unfolding update_term enter_term set_voted_for get_voted_for reset_election_timeout persist
    write_slots
to_deposed = refl

append_request_later_term_example :
    (deposed.state ≡ follower_state)
    × ((req : AppendEntriesRequest) × (append_request 1 deposed ≡ some req) × (req.term ≡ 2))
unfolding decrement
append_request_later_term_example =
    append_request_later_term clock 2 1
      (record { id = 2; next_index = 1; match_index = 0; voted_for = 1 }) blank_entry
      (server leader_state 1 1 1 0 (some (page_of 1 1 1))) deposed leading-Kept (omega arith)
      (omega arith) to_deposed refl refl

-- The server takes an entry and stops. The slot of its first entry was never written.
abbrev slot : List ℕ
slot = put_entry entry zero_slot

abbrev grown : Server ℕ
grown = record (server follower_state 1 0 0 600000000 none) {
  log = blank_entry ∷ entry ∷ [];
  fd = record { page = some (page_of 1 0 2); slots = zero_slot ∷ slot ∷ [] };
}

takes_entry :
    handle_append_entries full clock clock request fresh
    ≡ some (grown, record { term = 1; success = true })
unfolding handle_append_entries update_term enter_term set_voted_for get_voted_for
    reset_election_timeout follow_leader is_candidate answer_append is_follower valid_previous_log
    append_valid append_loop append_entry conflicts keep_or_append advanced_commit persist
    write_slots new_count new_log_offset write_entries put_slot reallocate
takes_entry = refl

Reach-restart_example :
    (r : Server ℕ) × (start (members 0 0) 0 grown.fd 0 clock ≡ some r) × Restored grown r
Reach-restart_example =
    Reach-restart count_up fresh grown (page_of 1 0 2) zero_slot (slot ∷ []) (members 0 0)
      (members 0 0) 0 0 clock fresh-Kept
      (one_more fresh grown none_yet (
        append_entries_step full clock clock request (record { term = 1; success = true }) grown
          full-IsCapacity (omega arith) (omega arith, tt) (omega arith, tt) (omega arith)
          takes_entry))
      refl refl copied (omega arith)
