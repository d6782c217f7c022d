-- ===== src/Tests/Clusters.antt =====
-- Small states of raft/part3/raft.go: a cluster of three, with one or two entries in the logs.
use go_distributed_system.Base.{ℕ, ℤ, pos, minus_one, ◌≡◌, Option, none, some, List, [], ◌∷◌, arith}
use go_distributed_system.Raft.State.{
  LogEntry, ConsensusModule, RequestVoteArgs, AppendEntriesArgs, leader,
}
use go_distributed_system.Raft.Persist.{Gob, blank}

-- Encoded values that keep what they encode.
pub data Blob : Type 0 where
  int_blob : ℤ → Blob
  log_blob : List (LogEntry ℕ) → Blob

abbrev pub decode_int : Blob → Option ℤ
decode_int (int_blob n) = some n
decode_int (log_blob l) = none

abbrev pub decode_log : Blob → Option (List (LogEntry ℕ))
decode_log (int_blob n) = none
decode_log (log_blob l) = some l

pub decode-encode_int : (n : ℤ) (b : Blob) → some (int_blob n) ≡ some b → decode_int b ≡ some n
decode-encode_int n b h = ground arith

pub decode-encode_log :
    (l : List (LogEntry ℕ)) (b : Blob) → some (log_blob l) ≡ some b → decode_log b ≡ some l
decode-encode_log l b h = ground arith

abbrev pub keep_all : Gob ℕ Blob
keep_all = record {
  encode_int = λ n. some (int_blob n);
  decode_int = decode_int;
  encode_log = λ l. some (log_blob l);
  decode_log = decode_log;
  decode-encode_int = decode-encode_int;
  decode-encode_log = decode-encode_log;
}

-- What a run returned, or the value given where it did not return.
abbrev pub from_some : {A : Type 0} → A → Option A → A
from_some a none = a
from_some a (some b) = b

abbrev pub first_entry : LogEntry ℕ
first_entry = record { command = 7; term = pos 1 }

abbrev pub second_entry : LogEntry ℕ
second_entry = record { command = 8; term = pos 1 }

abbrev pub stale_entry : LogEntry ℕ
stale_entry = record { command = 9; term = pos 0 }

-- Server 1, which knows nothing yet.
abbrev pub fresh_follower : ConsensusModule ℕ Blob
fresh_follower = blank (pos 1) (pos 0 ∷ pos 2 ∷ []) []

-- Server 1 with one entry of term 1.
abbrev pub short_follower : ConsensusModule ℕ Blob
short_follower = record fresh_follower {
  current_term = pos 1;
  voted_for = pos 0;
  log = first_entry ∷ [];
}

-- Server 1 with an entry of another term in the second place.
abbrev pub clashing_follower : ConsensusModule ℕ Blob
clashing_follower = record short_follower { log = first_entry ∷ stale_entry ∷ [] }

-- Server 1 with both entries, and the first one committed.
abbrev pub full_follower : ConsensusModule ℕ Blob
full_follower = record short_follower {
  log = first_entry ∷ second_entry ∷ [];
  commit_index = pos 0;
}

-- Server 0, which leads term 1; server 1 has its first entry.
abbrev pub leading : ConsensusModule ℕ Blob
leading = record (blank (pos 0) (pos 1 ∷ pos 2 ∷ []) []) {
  current_term = pos 1;
  voted_for = pos 0;
  log = first_entry ∷ second_entry ∷ [];
  commit_index = pos 0;
  last_applied = minus_one;
  state = leader;
  next_index = (pos 1, pos 1) ∷ (pos 2, pos 2) ∷ [];
  match_index = (pos 1, pos 0) ∷ (pos 2, minus_one) ∷ [];
}

-- Server 0 asks for votes in term 1, and asks again.
abbrev pub ask : RequestVoteArgs
ask = record {
  term = pos 1;
  candidate_id = pos 0;
  last_log_index = minus_one;
  last_log_term = minus_one;
}

abbrev pub ask_again : RequestVoteArgs
ask_again = record ask { last_log_index = pos 0; last_log_term = pos 0 }

-- What server 0 sends to server 1: the second entry, after the first.
abbrev pub next_entries : AppendEntriesArgs ℕ
next_entries = record {
  term = pos 1;
  leader_id = pos 0;
  prev_log_index = pos 0;
  prev_log_term = pos 1;
  entries = second_entry ∷ [];
  leader_commit = pos 0;
}

-- The same, after an entry that server 1 lacks or has with another term.
abbrev pub too_far : AppendEntriesArgs ℕ
too_far = record next_entries { prev_log_index = pos 1; entries = [] }

-- The whole log, with both entries committed.
abbrev pub whole_log : AppendEntriesArgs ℕ
whole_log = record next_entries {
  prev_log_index = minus_one;
  prev_log_term = minus_one;
  entries = first_entry ∷ second_entry ∷ [];
  leader_commit = pos 1;
}
