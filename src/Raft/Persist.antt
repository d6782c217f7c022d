-- ===== src/Raft/Persist.antt =====
-- raft/part3/storage.go and the methods of raft/part3/raft.go that use it.
-- encoding/gob is a parameter: encoders and decoders that may fail, and that decoding undoes
-- encoding. A failure ends the process (`log.Fatal`), as does a run-time panic: both are `none`.
pub mod Restart
use go_distributed_system.Base.{
  ℤ, pos, minus_one, String, ◌≡◌, Bool, true, Option, none, some, List, [], ◌∷◌, Map, lookup,
  insert, length, ltb, if◌then◌else◌, ◌>>=◌, string_eq, ◌++◌,
}
use go_distributed_system.Raft.State.{LogEntry, ConsensusModule, follower, is_leader}

pub record Gob (C B : Type 0) : Type 0 where
  pub encode_int : ℤ → Option B
  pub decode_int : B → Option ℤ
  pub encode_log : List (LogEntry C) → Option B
  pub decode_log : B → Option (List (LogEntry C))
  pub decode-encode_int : (n : ℤ) (b : B) → encode_int n ≡ some b → decode_int b ≡ some n
  pub decode-encode_log :
      (l : List (LogEntry C)) (b : B) → encode_log l ≡ some b → decode_log b ≡ some l

module _ {B : Type 0} where
  unfoldable pub storage_set : String → B → Map String B → Map String B
  storage_set key value m = insert key value m

  unfoldable pub storage_get : String → Map String B → Option B
  storage_get key m = lookup key m

  unfoldable pub has_data : Map String B → Bool
  has_data m = ltb 0 (length m)

-- The fields that the constructor sets before it looks into the storage.
abbrev pub blank : {C B : Type 0} → ℤ → List ℤ → Map String B → ConsensusModule C B
blank id peer_ids storage = record {
  id = id;
  peer_ids = peer_ids;
  storage = storage;
  current_term = pos 0;
  voted_for = minus_one;
  log = [];
  commit_index = minus_one;
  last_applied = minus_one;
  state = follower;
  election_reset_event = 0;
  next_index = [];
  match_index = [];
}

module _ {C B : Type 0} (gob : Gob C B) where
  unfoldable pub persist_to_storage : ConsensusModule C B → Option (ConsensusModule C B)
  unfolding storage_set
  persist_to_storage cm = do
    term_data ← gob.encode_int cm.current_term
    voted_data ← gob.encode_int cm.voted_for
    log_data ← gob.encode_log cm.log
    some (record cm {
      storage =
          storage_set "log" log_data
            (storage_set "votedFor" voted_data (storage_set "currentTerm" term_data cm.storage));
    })

  unfoldable pub restore_from_storage : ConsensusModule C B → Option (ConsensusModule C B)
  unfolding storage_get
  restore_from_storage cm = do
    term_data ← storage_get "currentTerm" cm.storage
    current_term ← gob.decode_int term_data
    voted_data ← storage_get "votedFor" cm.storage
    voted_for ← gob.decode_int voted_data
    log_data ← storage_get "log" cm.storage
    log ← gob.decode_log log_data
    some (record cm { current_term = current_term; voted_for = voted_for; log = log })

  -- The goroutines that it starts are the timer and the sender of the other modules.
  unfoldable pub new_consensus_module : ℤ → List ℤ → Map String B → Option (ConsensusModule C B)
  unfolding has_data
  new_consensus_module id peer_ids storage =
      let cm : ConsensusModule C B = blank id peer_ids storage in
      if has_data storage then restore_from_storage cm else some cm

  -- The index of the new entry, or -1 where this module does not lead.
  unfoldable pub submit : C → ConsensusModule C B → Option (ConsensusModule C B × ℤ)
  submit command cm =
      if is_leader cm.state
      then (do
        let entry : LogEntry C = record { command = command; term = cm.current_term }
        cm' ← persist_to_storage (record cm { log = cm.log ++ entry ∷ [] })
        some (cm', pos (length cm.log)))
      else some (cm, minus_one)
