-- ===== src/Goraft/Votes/Grant.antt =====
-- goraft/raft.go: `HandleRequestVoteRequest`.
use go_distributed_system.Base.{
  ℕ, ◌-◌, ◌^◌, ◌<◌, ◌≤◌, ◌≡◌, ◌≢◌, ◌⊎◌, inl, inr, sym, ◌∙◌, ap, subst, Bool, true, false, some,
  length, Bool-cases, some_inj, >>=-eq-some, if_true, if_false, ltb, arith,
}
use go_distributed_system.Goraft.State.{
  Entry, Server, Clock, last_entry, get_voted_for, set_voted_for, reset_election_timeout,
}
use go_distributed_system.Goraft.Disk.{persist}
use go_distributed_system.Goraft.Disk.Invariant.{Kept}
use go_distributed_system.Goraft.Votes.{
  RequestVoteRequest, RequestVoteResponse, log_ok, grants, update_term, cast_vote, answer_vote,
  handle_request_vote,
}
use go_distributed_system.Goraft.Votes.Saved.{
  some_pair_inj, note_vote-Noted, Noted, update_term_cases,
}

-- What a vote asks for.
pub grants-true :
    (req : RequestVoteRequest) (current_term last_log_term log_len vote : ℕ)
    → grants req current_term last_log_term log_len vote ≡ true
    → (req.term ≡ current_term)
      × (log_ok req last_log_term log_len ≡ true)
      × ((vote ≡ 0) ⊎ (vote ≡ req.candidate_id))
unfolding grants
grants-true req current_term last_log_term log_len vote e = ground arith

module _ {M : Type 0} where
  -- The state lets the vote be given: the request has its term, the log of the candidate is at least
  -- as late, and the vote of the term is free or the candidate's.
  pub record Granted (req : RequestVoteRequest) (s : Server M) : Type 0 where
    pub last : Entry
    pub last_is : last_entry s.log ≡ some last
    pub same_term : req.term ≡ s.current_term
    pub late_log : log_ok req last.term (length s.log - 1) ≡ true
    pub vote : ℕ
    pub vote_is : get_voted_for s ≡ some vote
    pub free_vote : (vote ≡ 0) ⊎ (vote ≡ req.candidate_id)

  cast_vote-Noted :
      (clock : Clock) (req : RequestVoteRequest) (s s' : Server M) (rsp : RequestVoteResponse)
      → Kept s
      → req.candidate_id < 2 ^ 64
      → req.term ≡ s.current_term
      → cast_vote clock req s ≡ some (s', rsp)
      → (rsp ≡ record { term = s.current_term; vote_granted = true })
        × Noted req.term req.candidate_id s s'
  unfolding cast_vote
  cast_vote-Noted clock req s s' rsp kept id_word same_term e =
      let (s1, set_is, e1) = >>=-eq-some (set_voted_for req.candidate_id s) _ e in
      let (s2, saved, e2) = >>=-eq-some (persist false 0 (reset_election_timeout clock s1)) _ e1 in
      let (same, is) = some_pair_inj e2 in
      let noted =
        note_vote-Noted clock req.candidate_id s.current_term s.state s s2 kept
          kept.sound.words.term_word id_word (rw (set_is, saved)) in
      (
        sym is,
        subst (λ t. Noted t req.candidate_id s s') (sym same_term)
            (subst (Noted s.current_term req.candidate_id s) same (noted.0)),
      )

  pub answer_vote_cases :
      (clock : Clock) (req : RequestVoteRequest) (s s' : Server M) (rsp : RequestVoteResponse)
      → Kept s
      → req.candidate_id < 2 ^ 64
      → answer_vote clock req s ≡ some (s', rsp)
      → ((s' ≡ s) × (rsp ≡ record { term = s.current_term; vote_granted = false }))
        ⊎ ((rsp ≡ record { term = s.current_term; vote_granted = true })
            × Granted req s
            × Noted req.term req.candidate_id s s')
  unfolding answer_vote
  answer_vote_cases clock req s s' rsp kept id_word e =
      let refused : RequestVoteResponse = record { term = s.current_term; vote_granted = false } in
      elim (Bool-cases (ltb req.term s.current_term)) [
        | inl old ↦
            let (same, is) = some_pair_inj (sym (if_true _ _ old) ∙ e) in inl (sym same, sym is)
        | inr not_old ↦
            let (last, last_is, e1) =
              >>=-eq-some (last_entry s.log) _ (sym (if_false _ _ not_old) ∙ e) in
            let (vote, vote_is, e2) = >>=-eq-some (get_voted_for s) _ e1 in
            elim (Bool-cases (grants req s.current_term last.term (length s.log - 1) vote)) [
              | inr refuse ↦
                  let (same, is) = some_pair_inj (sym (if_false _ _ refuse) ∙ e2) in
                  inl (sym same, sym is)
              | inl given ↦
                  let (same_term, late_log, free_vote) =
                    grants-true req s.current_term last.term (length s.log - 1) vote given in
                  let granted : Granted req s = record {
                    last = last;
                    last_is = last_is;
                    same_term = same_term;
                    late_log = late_log;
                    vote = vote;
                    vote_is = vote_is;
                    free_vote = free_vote;
                  } in
                  let (is, noted) =
                    cast_vote-Noted clock req s s' rsp kept id_word same_term
                      (sym (if_true _ _ given) ∙ e2) in
                  inr (is, granted, noted)
            ]
      ]

  -- The term that the request brings is entered first.
  split_vote :
      (clock clock' : Clock) (req : RequestVoteRequest) (s s' : Server M)
      (rsp : RequestVoteResponse)
      → handle_request_vote clock clock' req s ≡ some (s', rsp)
      → (s1 : Server M) × (moved : Bool) × (update_term clock req.term s ≡ some (s1, moved))
        × (answer_vote clock' req s1 ≡ some (s', rsp))
  unfolding handle_request_vote
  split_vote clock clock' req s s' rsp e =
      let ((s1, moved), entered, answered) = >>=-eq-some (update_term clock req.term s) _ e in
      (s1, moved, entered, answered)

  -- The server whose state the answer reads.
  pub record Entered (term : ℕ) (s s1 : Server M) : Type 0 where
    pub kept : Kept s1
    pub same_log : s1.log ≡ s.log
    pub same_commit : s1.commit_index ≡ s.commit_index
    pub reached : term ≤ s1.current_term
    pub which : (s1 ≡ s) ⊎ ((s.current_term < term) × (s1.current_term ≡ term))

  pub update_term-Entered :
      (clock : Clock) (term : ℕ) (s s1 : Server M) (moved : Bool)
      → Kept s
      → term < 2 ^ 64
      → update_term clock term s ≡ some (s1, moved)
      → Entered term s s1
  update_term-Entered clock term s s1 moved kept word e =
      elim (update_term_cases clock term s s1 moved kept word e) [
        | inl (le, same, _) ↦ record {
          reached = subst (λ (x : Server M). term ≤ x.current_term) (sym same) le;
          kept = subst Kept (sym same) kept;
          same_log = ap (λ (x : Server M). x.log) same;
          same_commit = ap (λ (x : Server M). x.commit_index) same;
          which = inl same;
        }
        | inr (later, _, noted, _) ↦ record {
          kept = noted.kept;
          same_log = noted.same_log;
          same_commit = noted.same_commit;
          reached = omega (arith, noted.term_is);
          which = inr (later, noted.term_is);
        }
      ]

  -- A server whose file is up to date gives its vote only to a candidate whose log is at least
  -- as late as its own, and has the term and the vote in the file before it answers with the
  -- term of the request; a refusal leaves a server whose file is up to date. The log stays as
  -- it was.
  pub handle_request_vote-Noted :
      (clock clock' : Clock) (req : RequestVoteRequest) (s s' : Server M)
      (rsp : RequestVoteResponse)
      → Kept s
      → req.term < 2 ^ 64
      → req.candidate_id < 2 ^ 64
      → handle_request_vote clock clock' req s ≡ some (s', rsp)
      → ((rsp.vote_granted ≡ false) × Kept s' × (s'.log ≡ s.log))
        ⊎ ((rsp.vote_granted ≡ true)
            × (rsp.term ≡ req.term)
            × (last : Entry) × (last_entry s.log ≡ some last)
            × (log_ok req last.term (length s.log - 1) ≡ true)
            × Noted req.term req.candidate_id s s')
  handle_request_vote-Noted clock clock' req s s' rsp kept word id_word e =
      let (s1, moved, entered, answered) = split_vote clock clock' req s s' rsp e in
      let mid = update_term-Entered clock req.term s s1 moved kept word entered in
      elim (answer_vote_cases clock' req s1 s' rsp mid.kept id_word answered) [
        | inl (same, is) ↦ inl (
          ap (λ (r : RequestVoteResponse). r.vote_granted) is,
          subst Kept (sym same) mid.kept,
          ap (λ (x : Server M). x.log) same ∙ mid.same_log,
        )
        | inr (is, granted, noted) ↦ inr (
          ap (λ (r : RequestVoteResponse). r.vote_granted) is,
          ap (λ (r : RequestVoteResponse). r.term) is ∙ sym granted.same_term,
          granted.last,
          subst (λ l. last_entry l ≡ some granted.last) mid.same_log granted.last_is,
          subst (λ l. log_ok req granted.last.term (length l - 1) ≡ true) mid.same_log
              granted.late_log,
          record {
            kept = noted.kept;
            page_is = noted.page_is;
            term_is = noted.term_is;
            vote_is = noted.vote_is;
            same_log = noted.same_log ∙ mid.same_log;
            same_commit = noted.same_commit ∙ mid.same_commit;
          },
        )
      ]

  -- A vote request that leaves the term as it is leaves a vote that was given in the term, and
  -- is granted to no candidate but the one that has this vote.
  pub handle_request_vote-one_vote :
      (clock clock' : Clock) (req : RequestVoteRequest) (s s' : Server M)
      (rsp : RequestVoteResponse) (v : ℕ)
      → Kept s
      → req.term < 2 ^ 64
      → req.candidate_id < 2 ^ 64
      → handle_request_vote clock clock' req s ≡ some (s', rsp)
      → s'.current_term ≡ s.current_term
      → get_voted_for s ≡ some v
      → v ≢ 0
      → (get_voted_for s' ≡ some v) × ((rsp.vote_granted ≡ false) ⊎ (req.candidate_id ≡ v))
  handle_request_vote-one_vote clock clock' req s s' rsp v kept word id_word e same_term voted
        taken =
      let (s1, moved, entered, answered) = split_vote clock clock' req s s' rsp e in
      let mid = update_term-Entered clock req.term s s1 moved kept word entered in
      elim (answer_vote_cases clock' req s1 s' rsp mid.kept id_word answered) [
        | inl (same, is) ↦ elim mid.which [
          | inl still ↦ (
            ap get_voted_for (same ∙ still) ∙ voted,
            inl (ap (λ (r : RequestVoteResponse). r.vote_granted) is),
          )
          | inr (later, is_term) ↦
              absurd (
                omega
                  (arith, ap (λ (x : Server M). x.current_term) same, is_term, same_term, later))
        ]
        | inr (is, granted, noted) ↦ elim mid.which [
          | inl still ↦
              let same_vote : granted.vote ≡ v =
                some_inj (sym granted.vote_is ∙ ap get_voted_for still ∙ voted) in
              elim granted.free_vote [
                | inl nobody ↦ absurd (taken (sym same_vote ∙ nobody))
                | inr candidate_has ↦
                    let again : req.candidate_id ≡ v = sym candidate_has ∙ same_vote in
                    (noted.vote_is ∙ ap some again, inr again)
              ]
          | inr (later, is_term) ↦ absurd (omega (arith, noted.term_is, same_term, later))
        ]
      ]
