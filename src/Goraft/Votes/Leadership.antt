-- ===== src/Goraft/Votes/Leadership.antt =====
-- goraft/raft.go: `becomeLeader`.
use go_distributed_system.Base.{
  ℕ, zero, suc, ◌+◌, ◌/◌, ◌^◌, ◌<◌, ◌≤◌, ◌≡◌, ◌⊎◌, inl, inr, refl, ◌∙◌, ap, true, none, some, List,
  [], ◌∷◌, ◌++◌, length, get_elem?, get_elem?_in_range, nat_beq, length-append, Bool-cases,
  some_inj, if_false, arith,
}
use go_distributed_system.Goraft.State.{
  Entry, ClusterMember, Server, Clock, leader_state, follower_state, get_voted_for,
}
use go_distributed_system.Goraft.Disk.{persist}
use go_distributed_system.Goraft.Disk.Slots.{FitAll-append}
use go_distributed_system.Goraft.Disk.Invariant.{IsSound, Kept, Kept-volatile, persist-Saved}
use go_distributed_system.Goraft.Disk.Appended.{HoldAll-appended, persist_appended-eq-some}
use go_distributed_system.Goraft.Votes.{
  missing_votes, reset_cluster, elected, become_leader, update_term,
}
use go_distributed_system.Goraft.Votes.Saved.{update_term_cases}
use go_distributed_system.Goraft.Votes.Office.{count_votes, missing_votes_none, missing_votes_some}

length-reset_cluster : (n : ℕ) (cs : List ClusterMember) → length (reset_cluster n cs) ≡ length cs
unfolding reset_cluster
length-reset_cluster n [] = refl
length-reset_cluster n (c ∷ cs) = ap suc (length-reset_cluster n cs)

get_elem?-reset_cluster :
    (n k : ℕ) (cs : List ClusterMember) {c : ClusterMember}
    → get_elem? cs k ≡ some c
    → get_elem? (reset_cluster n cs) k ≡ some (record c { next_index = n + 1; match_index = 0 })
unfolding reset_cluster
get_elem?-reset_cluster n k [] e = ground arith
get_elem?-reset_cluster n zero (x ∷ cs) e =
    ap (λ (m : ClusterMember). some (record m { next_index = n + 1; match_index = 0 })) (some_inj e)
get_elem?-reset_cluster n (suc k) (x ∷ cs) e = get_elem?-reset_cluster n k cs e

module _ {M : Type 0} where
  -- The entry that a new leader appends.
  abbrev pub noop : Server M → Entry
  noop s = record { command = []; term = s.current_term; result = none }

  -- The votes of a quorum.
  abbrev pub HasQuorum : Server M → Type 0
  HasQuorum s = length s.cluster / 2 + 1 ≤ count_votes s.id s.cluster

  elected-IsSound : (s : Server M) → Kept s → length s.log + 1 < 2 ^ 64 → IsSound (elected s)
  unfolding elected get_voted_for
  elected-IsSound s kept room =
      let sound = kept.sound in
      let (own, at_own) = get_elem?_in_range s.cluster s.cluster_index sound.in_range in
      let longer = length-append s.log (noop s ∷ []) in
      record {
        words = record {
          term_word = sound.words.term_word;
          vote = sound.words.vote;
          vote_is =
              rw (get_elem?-reset_cluster (length s.log) s.cluster_index s.cluster at_own)
                (rw at_own at sound.words.vote_is);
          vote_word = sound.words.vote_word;
          log_word = omega (arith, longer, room);
          entries_word =
              FitAll-append s.log (noop s ∷ []) sound.words.entries_word
                (sound.words.term_word, tt);
        };
        some_entry = omega (arith, longer);
        in_range = omega (arith, sound.in_range, length-reset_cluster (length s.log) s.cluster);
        id_word = sound.id_word;
      }

  -- What a new leader is.
  pub record InOffice (s s' : Server M) : Type 0 where
    pub kept : Kept s'
    pub quorum : HasQuorum s
    pub leads : s'.state ≡ leader_state
    pub same_term : s'.current_term ≡ s.current_term
    pub log_is : s'.log ≡ s.log ++ (noop s ∷ [])
    pub cluster_is : s'.cluster ≡ reset_cluster (length s.log) s.cluster

  elected-InOffice :
      (s s1 : Server M)
      → Kept s
      → length s.log + 1 < 2 ^ 64
      → HasQuorum s
      → persist true 1 (elected s) ≡ some s1
      → InOffice s s1
  unfolding elected
  elected-InOffice s s1 kept room quorum e =
      let saved =
        persist-Saved true 1 (elected s) s1 (elected-IsSound s kept room)
          (HoldAll-appended _ 1 s.log (noop s ∷ []) refl (omega arith) kept.held) e in
      let is = saved.only_file in
      record {
        kept = saved.kept;
        quorum = quorum;
        leads = ap (λ (x : Server M). x.state) is;
        same_term = ap (λ (x : Server M). x.current_term) is;
        log_is = ap (λ (x : Server M). x.log) is;
        cluster_is = ap (λ (x : Server M). x.cluster) is;
      }

  -- A heartbeat is due at once; the rest of the leader is as before.
  heartbeat-InOffice :
      (s s1 : Server M) (t : ℕ) → InOffice s s1 → InOffice s (record s1 { heartbeat_timeout = t })
  heartbeat-InOffice s s1 t office = record {
    kept =
        Kept-volatile s1 s1.state s1.commit_index s1.last_applied s1.election_timeout t
          s1.statemachine office.kept;
    quorum = office.quorum;
    leads = office.leads;
    same_term = office.same_term;
    log_is = office.log_is;
    cluster_is = office.cluster_is;
  }

  -- For a server whose file is up to date `becomeLeader` returns. Where a quorum of the cluster
  -- has voted for the server it becomes the leader of its term: its log ends in a new entry of
  -- this term with no command, the next and match index of every member are reset, and the file
  -- is up to date; else nothing changes.
  pub become_leader-InOffice :
      (clock : Clock) (s : Server M)
      → Kept s
      → length s.log + 1 < 2 ^ 64
      → (s' : Server M) × (become_leader clock s ≡ some s')
        × ((HasQuorum s × InOffice s s')
            ⊎ ((count_votes s.id s.cluster < length s.cluster / 2 + 1) × (s' ≡ s)))
  unfolding become_leader elected
  become_leader-InOffice clock s kept room =
      let quorum = length s.cluster / 2 + 1 in
      elim (Bool-cases (nat_beq (missing_votes s.id quorum s.cluster) 0)) [
        | inl won ↦
            let (s1, e) =
              persist_appended-eq-some 1 s.log (noop s ∷ []) (elected s)
                (elected-IsSound s kept room) refl refl (omega arith) (omega arith, tt) in
            let has = missing_votes_none s.id quorum s.cluster won in
            (
              record s1 { heartbeat_timeout = clock.now },
              rw (won, e),
              inl (has, heartbeat-InOffice s s1 clock.now (elected-InOffice s s1 kept room has e)),
            )
        | inr lost ↦
            (s, if_false _ _ lost, inr (missing_votes_some s.id quorum s.cluster lost, refl))
      ]

  -- A server that `updateTerm` brings to a later term follows in it; where the cluster it knows
  -- still has the votes of a quorum for it, `becomeLeader` makes it the leader of that term all
  -- the same.
  pub become_leader_later_term :
      (clock clock' : Clock) (term : ℕ) (s s1 : Server M)
      → Kept s
      → s.current_term < term
      → term < 2 ^ 64
      → update_term clock term s ≡ some (s1, true)
      → HasQuorum s1
      → length s.log + 1 < 2 ^ 64
      → (s2 : Server M) × (become_leader clock' s1 ≡ some s2)
        × (s1.state ≡ follower_state)
        × (s2.state ≡ leader_state)
        × (s2.current_term ≡ term)
  become_leader_later_term clock clock' term s s1 kept later word entered quorum room =
      elim (update_term_cases clock term s s1 true kept word entered) [
        | inl (earlier, _, _) ↦ absurd (omega arith)
        | inr (_, _, noted, follows) ↦
            let room' : length s1.log + 1 < 2 ^ 64 =
              omega (arith, ap length noted.same_log, room) in
            let (s2, e, which) = become_leader-InOffice clock' s1 noted.kept room' in
            elim which [
              | inl (_, office) ↦ (s2, e, follows, office.leads, office.same_term ∙ noted.term_is)
              | inr (lost, _) ↦ absurd (omega arith)
            ]
      ]
