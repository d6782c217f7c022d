-- ===== src/Goraft/Disk/Restore.antt =====
-- goraft/raft.go: `restore` on a file that has the state of a server.
use go_distributed_system.Base.{
  ℕ, suc, ◌<◌, ◌≤◌, ◌≡◌, refl, sym, ◌∙◌, ap, subst, none, some, List, [], ◌∷◌, length, set, map,
  get_elem?_in_range, get_elem?-set_self, length-set, arith,
}
use go_distributed_system.Goraft.State.{
  Entry, ClusterMember, MetadataFile, Server, ensure_log, set_voted_for, get_voted_for,
}
use go_distributed_system.Goraft.Disk.{page_of, read_entries, restore_page, restore}
use go_distributed_system.Goraft.Disk.Slots.{stored_entry, read_entries-HoldAll}
use go_distributed_system.Goraft.Disk.Restart.{page_term, page_vote, page_len, Durable}

pub first_entry :
    (log : List Entry) → 1 ≤ length log → (e : Entry) × (l : List Entry) × (log ≡ e ∷ l)
first_entry [] le = absurd (omega arith)
first_entry (e ∷ l) le = (e, l, refl)

length-stored : (log : List Entry) → length (map stored_entry log) ≡ length log
length-stored [] = refl
length-stored (e ∷ log) = ap suc (length-stored log)

module _ {M : Type 0} where
  -- What a vote that is set leaves.
  pub record Voted (id : ℕ) (s s' : Server M) : Type 0 where
    pub only_cluster : s' ≡ record s { cluster = s'.cluster }
    pub vote_is : get_voted_for s' ≡ some id
    pub same_length : length s'.cluster ≡ length s.cluster

  pub set_voted_for-Voted :
      (id : ℕ) (s : Server M)
      → s.cluster_index < length s.cluster
      → (s' : Server M) × (set_voted_for id s ≡ some s') × Voted id s s'
  unfolding set_voted_for get_voted_for
  set_voted_for-Voted id s lt =
      let (own, at_own) = get_elem?_in_range s.cluster s.cluster_index lt in
      let own' : ClusterMember = record own { voted_for = id } in
      let s' : Server M = record s { cluster = set s.cluster s.cluster_index own' } in
      (
        s',
        rw at_own,
        record {
          only_cluster = refl;
          vote_is = rw (get_elem?-set_self s.cluster s.cluster_index own' lt);
          same_length = length-set s.cluster s.cluster_index own';
        },
      )

  -- What a server has after it is restored from the file of another one.
  pub record Restored (old s : Server M) : Type 0 where
    pub same_term : s.current_term ≡ old.current_term
    pub same_vote : get_voted_for s ≡ get_voted_for old
    pub same_log : s.log ≡ map stored_entry old.log

  pub ensure_log-nonempty : (s : Server M) → 1 ≤ length s.log → ensure_log s ≡ s
  unfolding ensure_log
  ensure_log-nonempty s some_entry = let (e, l, is) = first_entry s.log some_entry in rw is

  pub restore-page :
      (s : Server M) (page : List ℕ) → s.fd.page ≡ some page → restore s ≡ restore_page page s
  unfolding restore
  restore-page s page e =
      ap (λ p. elim p [ none ↦ some (ensure_log s) | some page ↦ restore_page page s ]) e

  pub restore-Durable :
      (old fresh : Server M)
      → Durable old
      → 1 ≤ length old.log
      → fresh.fd ≡ old.fd
      → fresh.cluster_index < length fresh.cluster
      → (s : Server M) × (restore fresh ≡ some s) × Restored old s
  unfolding restore_page get_voted_for
  restore-Durable old fresh kept some_entry same_fd lt =
      let w = kept.words in
      let t =
        page_term old.current_term w.vote (length old.log) w.term_word w.vote_word w.log_word in
      let v =
        page_vote old.current_term w.vote (length old.log) w.term_word w.vote_word w.log_word in
      let n =
        page_len old.current_term w.vote (length old.log) w.term_word w.vote_word w.log_word in
      let page : fresh.fd.page ≡ some (page_of old.current_term w.vote (length old.log)) =
        ap (λ (f : MetadataFile). f.page) same_fd ∙ kept.page_is in
      let with_term : Server M = record fresh { current_term = old.current_term } in
      let (s', set_is, voted) = set_voted_for-Voted w.vote with_term lt in
      let read =
        subst
          (λ (f : MetadataFile).
            read_entries (length old.log) f.slots ≡ some (map stored_entry old.log))
          (sym same_fd) (read_entries-HoldAll old.fd.slots old.log kept.slots_hold) in
      let s : Server M = record s' { log = map stored_entry old.log } in
      (
        s,
        restore-page fresh _ page
            ∙ rw (
              t,
              v,
              n,
              set_is,
              read,
              ensure_log-nonempty s (omega (arith, length-stored old.log)),
            ),
        record {
          same_term = ap (λ (x : Server M). x.current_term) voted.only_cluster;
          same_vote = voted.vote_is ∙ sym w.vote_is;
          same_log = refl;
        },
      )
