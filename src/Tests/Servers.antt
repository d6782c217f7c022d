-- ===== src/Tests/Servers.antt =====
-- A server of goraft with a log of one blank entry, in a cluster of three, and the theorems at it.
use go_distributed_system.Base.{
  ℕ, ◌^◌, ◌<◌, ◌≡◌, ◌⊎◌, inl, inr, refl, Bool, true, false, Option, none, some, List, [], ◌∷◌,
  arith,
}
use go_distributed_system.Goraft.State.{
  Entry, blank_entry, ClusterMember, ServerState, Server, Clock, leader_state, follower_state,
  candidate_state, copy_cluster, get_voted_for, set_voted_for, last_entry, reset_election_timeout,
}
use go_distributed_system.Goraft.Disk.{page_of, start, write_slots, persist, new_count}
use go_distributed_system.Goraft.Disk.Padded.{padded}
use go_distributed_system.Goraft.Disk.Invariant.{Kept}
use go_distributed_system.Goraft.Disk.Fresh.{zero_slot-Holds}
use go_distributed_system.Goraft.Disk.Recovery.{restart-persist, start-persist_header}
use go_distributed_system.Goraft.Disk.Restore.{Restored}
use go_distributed_system.Goraft.Votes.{
  RequestVoteRequest, RequestVoteResponse, log_ok, grants, enter_term, update_term, cast_vote,
  answer_vote, handle_request_vote, become_leader,
}
use go_distributed_system.Goraft.Votes.Saved.{Noted}
use go_distributed_system.Goraft.Votes.Grant.{
  handle_request_vote-Noted, handle_request_vote-one_vote,
}
use go_distributed_system.Goraft.Votes.Returns.{handle_request_vote-eq-some}
use go_distributed_system.Goraft.Votes.Office.{count_votes}
use go_distributed_system.Goraft.Votes.Leadership.{
  HasQuorum, InOffice, become_leader-InOffice, become_leader_later_term,
}

abbrev member : ℕ → ℕ → ClusterMember
member id vote = record { id = id; next_index = 1; match_index = 0; voted_for = vote }

-- The members, of which the first has its vote and the others theirs.
abbrev pub members : ℕ → ℕ → List ClusterMember
members vote other = member 1 vote ∷ member 2 other ∷ member 3 other ∷ []

abbrev pub server : ServerState → ℕ → ℕ → ℕ → ℕ → Option (List ℕ) → Server ℕ
server st term vote other deadline page = record {
  current_term = term;
  log = blank_entry ∷ [];
  id = 1;
  election_timeout = deadline;
  heartbeat_ms = 300;
  heartbeat_timeout = 0;
  statemachine = 0;
  fd = record { page = page; slots = [] };
  commit_index = 0;
  last_applied = 0;
  state = st;
  cluster = members vote other;
  cluster_index = 0;
}

pub server-Kept :
    (st : ServerState) (term vote other deadline : ℕ) (page : Option (List ℕ))
    → term < 2 ^ 64
    → vote < 2 ^ 64
    → (page ≡ none) ⊎ (page ≡ some (page_of term vote 1))
    → Kept (server st term vote other deadline page)
unfolding get_voted_for padded
server-Kept st term vote other deadline page term_word vote_word page_is = record {
  sound = record {
    words = record {
      term_word = term_word;
      vote = vote;
      vote_is = refl;
      vote_word = vote_word;
      log_word = omega arith;
      entries_word = (omega arith, tt);
    };
    some_entry = omega arith;
    in_range = omega arith;
    id_word = omega arith;
  };
  page_is = page_is;
  held = (zero_slot-Holds, tt);
}

abbrev pub clock : Clock
clock = record { now = 0; draw = 0 }

-- A server that started on an empty file.
abbrev pub fresh : Server ℕ
fresh = server follower_state 0 0 0 0 none

pub fresh-Kept : Kept fresh
fresh-Kept = server-Kept follower_state 0 0 0 0 none (omega arith) (omega arith) (inl refl)

abbrev ask : ℕ → RequestVoteRequest
ask id = record { term = 1; candidate_id = id; last_log_index = 0; last_log_term = 0 }

abbrev voted : Server ℕ
voted = server follower_state 1 2 0 600000000 (some (page_of 1 2 1))

abbrev reply : Bool → RequestVoteResponse
reply granted = record { term = 1; vote_granted = granted }

vote_first : handle_request_vote clock clock (ask 2) fresh ≡ some (voted, reply true)
unfolding handle_request_vote update_term enter_term answer_vote grants log_ok cast_vote
    set_voted_for get_voted_for last_entry reset_election_timeout persist write_slots
vote_first = refl

vote_second : handle_request_vote clock clock (ask 3) voted ≡ some (voted, reply false)
unfolding handle_request_vote update_term answer_vote grants log_ok get_voted_for last_entry
vote_second = refl

handle_request_vote-Noted_example :
    (((reply true).vote_granted ≡ false) × Kept voted × (voted.log ≡ fresh.log))
    ⊎ (((reply true).vote_granted ≡ true)
        × ((reply true).term ≡ (ask 2).term)
        × (last : Entry) × (last_entry fresh.log ≡ some last)
        × (log_ok (ask 2) last.term 0 ≡ true)
        × Noted 1 2 fresh voted)
handle_request_vote-Noted_example =
    handle_request_vote-Noted clock clock (ask 2) fresh voted (reply true) fresh-Kept (omega arith)
      (omega arith) vote_first

voted-Kept : Kept voted
voted-Kept =
    server-Kept follower_state 1 2 0 600000000 (some (page_of 1 2 1)) (omega arith) (omega arith)
      (inr refl)

handle_request_vote-one_vote_example :
    (get_voted_for voted ≡ some 2)
    × (((reply false).vote_granted ≡ false) ⊎ ((ask 3).candidate_id ≡ 2))
unfolding get_voted_for
handle_request_vote-one_vote_example =
    handle_request_vote-one_vote clock clock (ask 3) voted voted (reply false) 2 voted-Kept
      (omega arith) (omega arith) vote_second refl refl (λ p. omega arith)

handle_request_vote-eq-some_example :
    (s' : Server ℕ) × (rsp : RequestVoteResponse) × (handle_request_vote clock clock (ask 2) fresh
      ≡ some (s', rsp))
handle_request_vote-eq-some_example =
    handle_request_vote-eq-some clock clock (ask 2) fresh fresh-Kept (omega arith) (omega arith)

-- Server 1 stands in term 1, with its own vote and those of the others.
abbrev standing_server : Server ℕ
standing_server = server candidate_state 1 1 1 0 (some (page_of 1 1 1))

standing_server-Kept : Kept standing_server
standing_server-Kept =
    server-Kept candidate_state 1 1 1 0 (some (page_of 1 1 1)) (omega arith) (omega arith)
      (inr refl)

become_leader-InOffice_example :
    (s' : Server ℕ) × (become_leader clock standing_server ≡ some s')
    × ((HasQuorum standing_server × InOffice standing_server s')
        ⊎ ((count_votes 1 (members 1 1) < 2) × (s' ≡ standing_server)))
become_leader-InOffice_example =
    become_leader-InOffice clock standing_server standing_server-Kept (omega arith)

-- It is brought to term 2.
abbrev later_server : Server ℕ
later_server = server follower_state 2 0 1 600000000 (some (page_of 2 0 1))

to_later : update_term clock 2 standing_server ≡ some (later_server, true)
unfolding update_term enter_term set_voted_for get_voted_for reset_election_timeout persist
    write_slots
to_later = refl

later-HasQuorum : HasQuorum later_server
unfolding count_votes
later-HasQuorum = omega arith

become_leader_later_term_example :
    (s2 : Server ℕ) × (become_leader clock later_server ≡ some s2)
    × (later_server.state ≡ follower_state)
    × (s2.state ≡ leader_state)
    × (s2.current_term ≡ 2)
become_leader_later_term_example =
    become_leader_later_term clock clock 2 standing_server later_server standing_server-Kept
      (omega arith) (omega arith) to_later later-HasQuorum (omega arith)

later-Kept : Kept later_server
later-Kept =
    server-Kept follower_state 2 0 1 600000000 (some (page_of 2 0 1)) (omega arith) (omega arith)
      (inr refl)

pub copied : copy_cluster (members 0 0) ≡ some (members 0 0)
unfolding copy_cluster
copied = refl

restart-persist_example :
    (s' r : Server ℕ) × (persist true 0 fresh ≡ some s')
    × (start (members 0 0) 0 s'.fd 0 clock ≡ some r)
    × Restored fresh r
unfolding new_count
restart-persist_example =
    restart-persist true 0 fresh (members 0 0) (members 0 0) 0 0 clock fresh-Kept.sound.words
      (omega arith, tt) (omega arith) tt copied (omega arith)

header_written : persist false 0 later_server ≡ some later_server
unfolding persist write_slots get_voted_for
header_written = refl

start-persist_header_example : start {M = ℕ} (members 0 0) 0 later_server.fd 0 clock ≡ none
start-persist_header_example =
    start-persist_header 0 later_server later_server (members 0 0) (members 0 0) 0 0 clock
      later-Kept.sound.words (omega arith) header_written copied (omega arith)
