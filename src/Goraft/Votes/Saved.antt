-- ===== src/Goraft/Votes/Saved.antt =====
-- goraft/raft.go: a change of the term or of the vote is in the file before the handler returns.
use go_distributed_system.Base.{
  ℕ, ◌^◌, ◌<◌, ◌≤◌, ◌≡◌, ◌⊎◌, inl, inr, sym, ◌∙◌, ap, subst, Bool, true, false, Option, some,
  length, get_elem?, set, get_elem?-set_self, length-set, Bool-cases, some_inj, >>=-eq-some,
  if_true, if_false, ltb, ◌>>=◌, arith,
}
use go_distributed_system.Goraft.State.{
  ClusterMember, ServerState, Server, Clock, follower_state, set_voted_for, get_voted_for,
  reset_election_timeout,
}
use go_distributed_system.Goraft.Disk.{persist}
use go_distributed_system.Goraft.Disk.Slots.{HoldAll}
use go_distributed_system.Goraft.Disk.Restart.{take_all}
use go_distributed_system.Goraft.Disk.Padded.{padded}
use go_distributed_system.Goraft.Disk.Invariant.{IsSound, PageIs, Kept, Saved, persist-Saved}
use go_distributed_system.Goraft.Votes.{enter_term, update_term}

pub some_pair_inj {ℓ κ} :
    {A : Type ℓ} {B : Type κ} {a a' : A} {b b' : B}
    → ◌≡◌ {A = Option (A × B)} (some (a, b)) (some (a', b'))
    → (a ≡ a') × (b ≡ b')
some_pair_inj {A = A} {B = B} e =
    (ap (λ (p : A × B). p.0) (some_inj e), ap (λ (p : A × B). p.1) (some_inj e))

module _ {M : Type 0} where
  -- A write of the page alone.
  pub persist_header-Saved :
      (s s' : Server M)
      → IsSound s
      → HoldAll (padded s.fd.slots) 0 s.log
      → persist false 0 s ≡ some s'
      → Saved s s'
  persist_header-Saved s s' sound held e =
      persist-Saved false 0 s s' sound
        (subst (HoldAll (padded s.fd.slots) 0) (sym (take_all s.log)) held) e

  -- A term and a vote that the file has.
  pub record Noted (term id : ℕ) (s s' : Server M) : Type 0 where
    pub kept : Kept s'
    pub page_is : PageIs s' kept.sound.words.vote
    pub term_is : s'.current_term ≡ term
    pub vote_is : get_voted_for s' ≡ some id
    pub same_log : s'.log ≡ s.log
    pub same_commit : s'.commit_index ≡ s.commit_index

  -- A vote is set, and the page is written.
  abbrev pub note_vote : Clock → ℕ → Server M → Option (Server M)
  note_vote clock id s = do
    s1 ← set_voted_for id s
    persist false 0 (reset_election_timeout clock s1)

  -- A server with a term and a vote that are set, before its page is written.
  abbrev pub noting : Clock → ℕ → ℕ → ServerState → ClusterMember → Server M → Server M
  noting clock id term st own s = reset_election_timeout clock (record s {
    current_term = term;
    state = st;
    cluster = set s.cluster s.cluster_index (record own { voted_for = id });
  })

  noting_vote :
      (clock : Clock) (id term : ℕ) (st : ServerState) (own : ClusterMember) (s : Server M)
      → s.cluster_index < length s.cluster
      → get_voted_for (noting clock id term st own s) ≡ some id
  unfolding get_voted_for reset_election_timeout
  noting_vote clock id term st own s in_range =
      rw (get_elem?-set_self s.cluster s.cluster_index (record own { voted_for = id }) in_range)

  pub noting-IsSound :
      (clock : Clock) (id term : ℕ) (st : ServerState) (own : ClusterMember) (s : Server M)
      → Kept s
      → term < 2 ^ 64
      → id < 2 ^ 64
      → IsSound (noting clock id term st own s)
  unfolding reset_election_timeout
  noting-IsSound clock id term st own s kept term_word id_word =
      let own' : ClusterMember = record own { voted_for = id } in
      record {
        words = record {
          term_word = term_word;
          vote = id;
          vote_is = noting_vote clock id term st own s kept.sound.in_range;
          vote_word = id_word;
          log_word = kept.sound.words.log_word;
          entries_word = kept.sound.words.entries_word;
        };
        some_entry = kept.sound.some_entry;
        in_range = omega (arith, kept.sound.in_range, length-set s.cluster s.cluster_index own');
        id_word = kept.sound.id_word;
      }

  pub note_vote-Noted :
      (clock : Clock) (id term : ℕ) (st : ServerState) (s s' : Server M)
      → Kept s
      → term < 2 ^ 64
      → id < 2 ^ 64
      → note_vote clock id (record s { current_term = term; state = st }) ≡ some s'
      → Noted term id s s' × (s'.state ≡ st)
  unfolding set_voted_for get_voted_for reset_election_timeout
  note_vote-Noted clock id term st s s' kept term_word id_word e =
      let s0 : Server M = record s { current_term = term; state = st } in
      let (s1, set_is, e1) = >>=-eq-some (set_voted_for id s0) _ e in
      let (own, at_own, e2) = >>=-eq-some (get_elem? s.cluster s.cluster_index) _ set_is in
      let s2 = noting clock id term st own s in
      let sound = noting-IsSound clock id term st own s kept term_word id_word in
      let written : persist false 0 s2 ≡ some s' =
        ap (λ (x : Server M). persist false 0 (reset_election_timeout clock x)) (some_inj e2)
        ∙ e1 in
      let saved = persist_header-Saved s2 s' sound kept.held written in
      let same = saved.only_file in
      (
        record {
          kept = saved.kept;
          page_is = saved.page_is;
          term_is = ap (λ (x : Server M). x.current_term) same;
          vote_is = ap get_voted_for same ∙ noting_vote clock id term st own s kept.sound.in_range;
          same_log = ap (λ (x : Server M). x.log) same;
          same_commit = ap (λ (x : Server M). x.commit_index) same;
        },
        ap (λ (x : Server M). x.state) same,
      )

  -- The moved flag says whether the term is later, and an earlier one changes nothing.
  pub update_term_cases :
      (clock : Clock) (term : ℕ) (s s' : Server M) (moved : Bool)
      → Kept s
      → term < 2 ^ 64
      → update_term clock term s ≡ some (s', moved)
      → ((term ≤ s.current_term) × (s' ≡ s) × (moved ≡ false))
        ⊎ ((s.current_term < term)
            × (moved ≡ true)
            × Noted term 0 s s'
            × (s'.state ≡ follower_state))
  unfolding update_term enter_term
  update_term_cases clock term s s' moved kept term_word e =
      elim (Bool-cases (ltb s.current_term term)) [
        | inl later ↦
            let (s1, entered, e1) =
              >>=-eq-some (enter_term clock term s) _ (sym (if_true _ _ later) ∙ e) in
            let (noted, st) =
              note_vote-Noted clock 0 term follower_state s s1 kept term_word (omega arith)
                entered in
            let (same, flag) = some_pair_inj e1 in
            let both =
              subst (λ x. Noted term 0 s x × (x.state ≡ follower_state)) same (noted, st) in
            inr (ground arith, sym flag, both.0, both.1)
        | inr not_later ↦
            let (same, flag) = some_pair_inj (sym (if_false _ _ not_later) ∙ e) in
            inl (ground arith, sym same, sym flag)
      ]
