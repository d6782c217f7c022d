-- ===== src/Goraft/Votes/Returns.antt =====
-- goraft/raft.go: the handlers of elections return: no index is out of range, and no command too large.
use go_distributed_system.Base.{
  ℕ, ◌-◌, ◌^◌, ◌<◌, ◌≡◌, inl, inr, refl, sym, subst, Bool, true, false, some, List, [], ◌∷◌, length,
  get_elem?_in_range, Bool-cases, if_true, if_false, ltb, arith,
}
use go_distributed_system.Goraft.State.{
  Entry, ServerState, Server, Clock, follower_state, last_entry, set_voted_for,
}
use go_distributed_system.Goraft.Disk.Restore.{first_entry}
use go_distributed_system.Goraft.Disk.Invariant.{Kept}
use go_distributed_system.Goraft.Disk.Appended.{persist_header-eq-some}
use go_distributed_system.Goraft.Votes.{
  RequestVoteRequest, RequestVoteResponse, grants, enter_term, update_term, cast_vote, answer_vote,
  handle_request_vote, others, timeout,
}
use go_distributed_system.Goraft.Votes.Saved.{note_vote, noting, noting-IsSound}
use go_distributed_system.Goraft.Votes.Grant.{update_term-Entered}
use go_distributed_system.Goraft.Votes.Office.{standing, standing-IsSound}

last_entry-eq-some :
    (e : Entry) (log : List Entry) → (last : Entry) × (last_entry (e ∷ log) ≡ some last)
unfolding last_entry
last_entry-eq-some e [] = (e, refl)
last_entry-eq-some e (x ∷ log) = let (last, is) = last_entry-eq-some x log in (last, rw is)

module _ {M : Type 0} where
  note_vote-eq-some :
      (clock : Clock) (id term : ℕ) (st : ServerState) (s : Server M)
      → Kept s
      → term < 2 ^ 64
      → id < 2 ^ 64
      → (s' : Server M) × (note_vote clock id (record s { current_term = term; state = st })
          ≡ some s')
  unfolding set_voted_for
  note_vote-eq-some clock id term st s kept word id_word =
      let (own, at_own) = get_elem?_in_range s.cluster s.cluster_index kept.sound.in_range in
      let (s', e) =
        persist_header-eq-some (noting clock id term st own s)
          (noting-IsSound clock id term st own s kept word id_word) in
      (s', rw at_own e)

  pub update_term-eq-some :
      (clock : Clock) (term : ℕ) (s : Server M)
      → Kept s
      → term < 2 ^ 64
      → (s' : Server M) × (moved : Bool) × (update_term clock term s ≡ some (s', moved))
  unfolding update_term enter_term
  update_term-eq-some clock term s kept word = elim (Bool-cases (ltb s.current_term term)) [
    | inl later ↦
        let (s1, e) = note_vote-eq-some clock 0 term follower_state s kept word (omega arith) in
        (s1, true, rw (later, e))
    | inr earlier ↦ (s, false, if_false _ _ earlier)
  ]

  cast_vote-eq-some :
      (clock : Clock) (req : RequestVoteRequest) (s : Server M)
      → Kept s
      → req.candidate_id < 2 ^ 64
      → (s' : Server M) × (rsp : RequestVoteResponse) × (cast_vote clock req s ≡ some (s', rsp))
  unfolding cast_vote set_voted_for
  cast_vote-eq-some clock req s kept id_word =
      let (own, at_own) = get_elem?_in_range s.cluster s.cluster_index kept.sound.in_range in
      let (s', e) =
        persist_header-eq-some (noting clock req.candidate_id s.current_term s.state own s) (
          noting-IsSound clock req.candidate_id s.current_term s.state own s kept
            kept.sound.words.term_word id_word) in
      (s', record { term = s.current_term; vote_granted = true }, rw (at_own, e))

  answer_vote-eq-some :
      (clock : Clock) (req : RequestVoteRequest) (s : Server M)
      → Kept s
      → req.candidate_id < 2 ^ 64
      → (s' : Server M) × (rsp : RequestVoteResponse) × (answer_vote clock req s ≡ some (s', rsp))
  unfolding answer_vote
  answer_vote-eq-some clock req s kept id_word =
      let refused : RequestVoteResponse = record { term = s.current_term; vote_granted = false } in
      let (x, l, log_is) = first_entry s.log kept.sound.some_entry in
      let (last, last_is) = last_entry-eq-some x l in
      let last_is' = subst (λ log. last_entry log ≡ some last) (sym log_is) last_is in
      let vote = kept.sound.words.vote in
      elim (Bool-cases (ltb req.term s.current_term)) [
        | inl old ↦ (s, refused, if_true _ _ old)
        | inr not_old ↦
            elim (Bool-cases (grants req s.current_term last.term (length s.log - 1) vote)) [
              | inl given ↦
                  let (s', rsp, cast) = cast_vote-eq-some clock req s kept id_word in
                  (s', rsp, rw (not_old, last_is', kept.sound.words.vote_is, given, cast))
              | inr refuse ↦ (s, refused, rw (not_old, last_is', kept.sound.words.vote_is, refuse))
            ]
      ]

  -- A server whose file is up to date answers every vote request whose term and candidate are
  -- uint64s: there is no panic.
  pub handle_request_vote-eq-some :
      (clock clock' : Clock) (req : RequestVoteRequest) (s : Server M)
      → Kept s
      → req.term < 2 ^ 64
      → req.candidate_id < 2 ^ 64
      → (s' : Server M) × (rsp : RequestVoteResponse) × (handle_request_vote clock clock' req s
          ≡ some (s', rsp))
  unfolding handle_request_vote
  handle_request_vote-eq-some clock clock' req s kept word id_word =
      let (s1, moved, entered) = update_term-eq-some clock req.term s kept word in
      let mid = update_term-Entered clock req.term s s1 moved kept word entered in
      let (s', rsp, answered) = answer_vote-eq-some clock' req s1 mid.kept id_word in
      (s', rsp, rw (entered, answered))

  -- An election timeout is handled in every state.
  pub timeout-eq-some :
      (now : ℕ) (clock : Clock) (s : Server M)
      → Kept s
      → (s' : Server M) × (targets : List ℕ) × (timeout now clock s ≡ some (s', targets))
  unfolding timeout standing
  timeout-eq-some now clock s kept = elim (Bool-cases (ltb s.election_timeout now)) [
    | inl late ↦
        let (s1, e) = persist_header-eq-some (standing clock s) (standing-IsSound clock s kept) in
        (s1, others s.cluster_index 0 s.cluster, rw (late, e))
    | inr early ↦ (s, [], if_false _ _ early)
  ]
