-- ===== src/Goraft/Votes/Office.antt =====
-- goraft/raft.go: `timeout` and `becomeLeader`: a candidate stands with its own vote, and takes office
-- with the votes of a quorum.
use go_distributed_system.Base.{
  ℕ, zero, suc, ◌+◌, ◌-◌, ◌<◌, ◌≤◌, ◌≡◌, ◌⊎◌, inl, inr, refl, sym, ◌∙◌, ap, subst, true, false,
  some, List, [], ◌∷◌, length, get_elem?, get_elem?_in_range, nat_beq, Bool-cases, some_inj,
  >>=-eq-some, if_true, if_false, if◌then◌else◌, ltb, arith,
}
use go_distributed_system.Goraft.State.{
  ClusterMember, Server, Clock, candidate_state, increment, get_voted_for, reset_election_timeout,
}
use go_distributed_system.Goraft.Disk.{persist}
use go_distributed_system.Goraft.Disk.Invariant.{IsSound, Kept}
use go_distributed_system.Goraft.Votes.{stand, others, missing_votes, candidate, timeout}
use go_distributed_system.Goraft.Votes.Saved.{Noted, persist_header-Saved, some_pair_inj}

-- The votes that a member has in the cluster.
unfoldable pub count_votes : ℕ → List ClusterMember → ℕ
count_votes id [] = 0
count_votes id (c ∷ cs) =
    let rest = count_votes id cs in if nat_beq c.voted_for id then suc rest else rest

pub missing_votes-count :
    (id quorum : ℕ) (cs : List ClusterMember)
    → missing_votes id quorum cs ≡ quorum - count_votes id cs
unfolding missing_votes count_votes
missing_votes-count id quorum [] = omega arith
missing_votes-count id quorum (c ∷ cs) =
    ground (arith, missing_votes-count id (quorum - 1) cs, missing_votes-count id quorum cs)

length-stand : (id own i : ℕ) (cs : List ClusterMember) → length (stand id own i cs) ≡ length cs
unfolding stand
length-stand id own i [] = refl
length-stand id own i (c ∷ cs) = ap suc (length-stand id own (suc i) cs)

-- A candidate votes for itself, and every other vote is dropped.
pub get_elem?-stand :
    (id own i k : ℕ) (cs : List ClusterMember) (c : ClusterMember)
    → get_elem? cs k ≡ some c
    → get_elem? (stand id own i cs) k
      ≡ some (record c { voted_for = (if nat_beq (i + k) own then id else 0) })
unfolding stand
get_elem?-stand id own i k [] c e = ground arith
get_elem?-stand id own i zero (x ∷ cs) c e =
    let at : i + 0 ≡ i = omega arith in
    rw at (
      ap (λ (m : ClusterMember). some (record m { voted_for = (if nat_beq i own then id else 0) }))
        (some_inj e))
get_elem?-stand id own i (suc k) (x ∷ cs) c e =
    let at : suc i + k ≡ i + suc k = omega arith in
    subst
      (λ j.
        get_elem? (stand id own (suc i) cs) k
        ≡ some (record c { voted_for = (if nat_beq j own then id else 0) }))
      at (get_elem?-stand id own (suc i) k cs c e)

-- A vote from a quorum, and no fewer, makes the leader.
pub missing_votes_none :
    (id quorum : ℕ) (cs : List ClusterMember)
    → nat_beq (missing_votes id quorum cs) 0 ≡ true
    → quorum ≤ count_votes id cs
missing_votes_none id quorum cs e = ground (arith, missing_votes-count id quorum cs)

pub missing_votes_some :
    (id quorum : ℕ) (cs : List ClusterMember)
    → nat_beq (missing_votes id quorum cs) 0 ≡ false
    → count_votes id cs < quorum
missing_votes_some id quorum cs e = ground (arith, missing_votes-count id quorum cs)

module _ {M : Type 0} where
  -- The candidate of `timeout`, after its state, its term and its votes are set.
  unfoldable pub standing : Clock → Server M → Server M
  standing clock s = reset_election_timeout clock (candidate s)

  standing_vote :
      (clock : Clock) (s : Server M)
      → s.cluster_index < length s.cluster
      → get_voted_for (standing clock s) ≡ some s.id
  unfolding standing candidate reset_election_timeout get_voted_for
  standing_vote clock s in_range =
      let (own, at_own) = get_elem?_in_range s.cluster s.cluster_index in_range in
      let self : nat_beq (0 + s.cluster_index) s.cluster_index ≡ true = ground arith in
      let there = get_elem?-stand s.id s.cluster_index 0 s.cluster_index s.cluster own at_own in
      rw (there, self)

  pub standing-IsSound : (clock : Clock) (s : Server M) → Kept s → IsSound (standing clock s)
  unfolding standing candidate reset_election_timeout increment
  standing-IsSound clock s kept =
      let sound = kept.sound in
      record {
        words = record {
          term_word = omega arith;
          vote = s.id;
          vote_is = standing_vote clock s sound.in_range;
          vote_word = sound.id_word;
          log_word = sound.words.log_word;
          entries_word = sound.words.entries_word;
        };
        some_entry = sound.some_entry;
        in_range = omega (arith, sound.in_range, length-stand s.id s.cluster_index 0 s.cluster);
        id_word = sound.id_word;
      }

  -- A timeout changes nothing before its time, and then the server stands in the next term, with the
  -- vote for itself in the file.
  pub timeout-Noted :
      (now : ℕ) (clock : Clock) (s s' : Server M) (targets : List ℕ)
      → Kept s
      → timeout now clock s ≡ some (s', targets)
      → ((now ≤ s.election_timeout) × (s' ≡ s) × (targets ≡ []))
        ⊎ ((s.election_timeout < now)
            × (s'.state ≡ candidate_state)
            × (s'.cluster ≡ stand s.id s.cluster_index 0 s.cluster)
            × (targets ≡ others s.cluster_index 0 s.cluster)
            × Noted (increment s.current_term) s.id s s')
  unfolding timeout standing candidate reset_election_timeout get_voted_for increment
  timeout-Noted now clock s s' targets kept e = elim (Bool-cases (ltb s.election_timeout now)) [
    | inr early ↦
        let (same, none_sent) = some_pair_inj (sym (if_false _ _ early) ∙ e) in
        inl (ground arith, sym same, sym none_sent)
    | inl late ↦
        let s0 : Server M = standing clock s in
        let (s1, saved_is, e1) = >>=-eq-some (persist false 0 s0) _ (sym (if_true _ _ late) ∙ e) in
        let (same, sent) = some_pair_inj e1 in
        let saved = persist_header-Saved s0 s1 (standing-IsSound clock s kept) kept.held saved_is in
        let is = saved.only_file in
        let noted : Noted (increment s.current_term) s.id s s1 = record {
          kept = saved.kept;
          page_is = saved.page_is;
          term_is = ap (λ (x : Server M). x.current_term) is;
          vote_is = ap get_voted_for is ∙ standing_vote clock s kept.sound.in_range;
          same_log = ap (λ (x : Server M). x.log) is;
          same_commit = ap (λ (x : Server M). x.commit_index) is;
        } in
        let same' = sym same in
        inr (
          ground arith,
          ap (λ (x : Server M). x.state) same' ∙ ap (λ (x : Server M). x.state) is,
          ap (λ (x : Server M). x.cluster) same' ∙ ap (λ (x : Server M). x.cluster) is,
          sym sent,
          subst (Noted (increment s.current_term) s.id s) same noted,
        )
  ]
