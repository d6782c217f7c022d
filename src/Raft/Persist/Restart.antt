-- ===== src/Raft/Persist/Restart.antt =====
-- What is written to stable storage is what a module that starts again reads.
use go_distributed_system.Base.{
  if_true, sym, ◌∙◌, ap, some_inj, ℤ, pos, String, ◌≡◌, refl, true, some, List, [], ◌∷◌, Map,
  insert, lookup-insert, length, arith, >>=-eq-some, subst, ◌++◌,
}
use go_distributed_system.Raft.State.{is_leader, LogEntry, leader, ConsensusModule}
use go_distributed_system.Raft.Persist.{
  Gob, storage_get, storage_set, has_data, persist_to_storage, restore_from_storage,
  new_consensus_module, blank, submit,
}

module _ {C B : Type 0} (gob : Gob C B) where
  -- Persisting writes the storage and nothing else.
  pub persist_to_storage_frame :
      (cm : ConsensusModule C B) {cm' : ConsensusModule C B}
      → persist_to_storage gob cm ≡ some cm'
      → cm' ≡ record cm { storage = cm'.storage }
  unfolding persist_to_storage
  persist_to_storage_frame cm h = ground arith

  set_three : (a b c : B) (m : Map String B) → Map String B
  set_three a b c m = storage_set "log" c (storage_set "votedFor" b (storage_set "currentTerm" a m))

  set_three-gets :
      (a b c : B) (m : Map String B)
      → (storage_get "currentTerm" (set_three a b c m) ≡ some a)
        × (storage_get "votedFor" (set_three a b c m) ≡ some b)
        × (storage_get "log" (set_three a b c m) ≡ some c)
  unfolding set_three storage_set storage_get
  set_three-gets a b c m = (simp lookup-insert, simp lookup-insert, simp lookup-insert)

  has_data-set : (k : String) (v : B) (m : Map String B) → has_data (storage_set k v m) ≡ true
  unfolding has_data storage_set insert
  has_data-set k v [] = refl
  has_data-set k v ((j, w) ∷ m) = ground arith

  -- The storage holds the term, the vote and the log that the module has now.
  pub record IsDurable (cm : ConsensusModule C B) : Type 0 where
    pub term_data : B
    pub voted_data : B
    pub log_data : B
    pub term_stored : storage_get "currentTerm" cm.storage ≡ some term_data
    pub voted_stored : storage_get "votedFor" cm.storage ≡ some voted_data
    pub log_stored : storage_get "log" cm.storage ≡ some log_data
    pub term_decoded : gob.decode_int term_data ≡ some cm.current_term
    pub voted_decoded : gob.decode_int voted_data ≡ some cm.voted_for
    pub log_decoded : gob.decode_log log_data ≡ some cm.log
    pub nonempty : has_data cm.storage ≡ true

  pub persist_to_storage-IsDurable :
      (cm : ConsensusModule C B) {cm' : ConsensusModule C B}
      → persist_to_storage gob cm ≡ some cm'
      → IsDurable cm'
  unfolding persist_to_storage set_three
  persist_to_storage-IsDurable cm h =
      let (a, ea, ha) = >>=-eq-some (gob.encode_int cm.current_term) _ h in
      let (b, eb, hb) = >>=-eq-some (gob.encode_int cm.voted_for) _ ha in
      let (c, ec, hc) = >>=-eq-some (gob.encode_log cm.log) _ hb in
      let (ga, gb, gc) = set_three-gets a b c cm.storage in
      subst IsDurable (some_inj hc) (record {
        term_data = a;
        voted_data = b;
        log_data = c;
        term_stored = ga;
        voted_stored = gb;
        log_stored = gc;
        term_decoded = gob.decode-encode_int cm.current_term a ea;
        voted_decoded = gob.decode-encode_int cm.voted_for b eb;
        log_decoded = gob.decode-encode_log cm.log c ec;
        nonempty = has_data-set "log" c _;
      })

  -- What a module comes back as: a follower with the term, the vote and the log of before, and
  -- with nothing committed or applied.
  abbrev pub restarted : ℤ → List ℤ → ConsensusModule C B → ConsensusModule C B
  restarted id peer_ids cm = record (blank id peer_ids cm.storage) {
    current_term = cm.current_term;
    voted_for = cm.voted_for;
    log = cm.log;
  }

  pub new_consensus_module-IsDurable :
      (id : ℤ) (peer_ids : List ℤ) (cm : ConsensusModule C B)
      → IsDurable cm
      → new_consensus_module gob id peer_ids cm.storage ≡ some (restarted id peer_ids cm)
  unfolding new_consensus_module restore_from_storage
  new_consensus_module-IsDurable id peer_ids cm d = rw (
    d.nonempty, d.term_stored, d.term_decoded, d.voted_stored, d.voted_decoded, d.log_stored,
    d.log_decoded,
  )

  -- If a command is submitted to a leader and its state can be encoded, the command is the last entry of the log, at the index that is
  -- returned, and it survives a restart.
  pub submit_accepted :
      (command : C) (cm : ConsensusModule C B) {cm' : ConsensusModule C B} {index : ℤ}
      → submit gob command cm ≡ some (cm', index)
      → cm.state ≡ leader
      → (index ≡ pos (length cm.log))
        × (cm'.log ≡ cm.log ++ record { command = command; term = cm.current_term } ∷ [])
        × (new_consensus_module gob cm'.id cm'.peer_ids cm'.storage
            ≡ some (restarted cm'.id cm'.peer_ids cm'))
  unfolding submit
  submit_accepted command cm {cm' = cm'} h lead =
      let entry : LogEntry C = record { command = command; term = cm.current_term } in
      let before : ConsensusModule C B = record cm { log = cm.log ++ entry ∷ [] } in
      let (after, persisted, e) =
        >>=-eq-some (persist_to_storage gob before) _ (sym (if_true _ _ (ap is_leader lead)) ∙ h) in
      let durable = persist_to_storage-IsDurable before persisted in
      let same : after ≡ cm' = cc e in
      (
        cc e,
        rw (← same) (rw (persist_to_storage_frame before persisted)),
        new_consensus_module-IsDurable cm'.id cm'.peer_ids cm' (subst IsDurable same durable),
      )
