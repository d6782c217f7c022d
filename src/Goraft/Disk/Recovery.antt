-- ===== src/Goraft/Disk/Recovery.antt =====
-- goraft/raft.go: a server that starts again on a file that `persist` has written.
use go_distributed_system.Base.{
  ℕ, ◌<◌, ◌≤◌, ◌≡◌, refl, sym, ◌∙◌, ap, subst, Bool, false, none, some, List, length, take, map,
  get_elem?_in_range, some_inj, arith,
}
use go_distributed_system.Goraft.State.{
  ClusterMember, MetadataFile, Server, Clock, copy_cluster, initial_server, new_server,
  reset_election_timeout, get_voted_for,
}
use go_distributed_system.Goraft.Disk.{page_of, write_slots, persist, restore_page, start}
use go_distributed_system.Goraft.Disk.Slots.{
  stored_entry, HoldAll, read_entries-short, Writable, write_slots-eq-some,
}
use go_distributed_system.Goraft.Disk.Restart.{
  page_term, page_vote, page_len, IsWord, Durable, untouched_count, persist-Persisted,
}
use go_distributed_system.Goraft.Disk.Restore.{
  set_voted_for-Voted, Restored, restore-page, restore-Durable,
}

module _ {M : Type 0} where
  pub new_server-eq-some :
      (config cluster : List ClusterMember) (m : M) (fd : MetadataFile) (i : ℕ)
      → copy_cluster config ≡ some cluster
      → i < length cluster
      → (s : Server M) × (new_server config m fd i ≡ some s)
        × (s.fd ≡ fd)
        × (s.cluster ≡ cluster)
        × (s.cluster_index ≡ i)
  unfolding new_server
  new_server-eq-some config cluster m fd i copied lt =
      let (own, at_i) = get_elem?_in_range cluster i lt in
      (initial_server own.id cluster m fd i, rw (copied, at_i), refl, refl, refl)

  pub start-Restored :
      (old : Server M) (config cluster : List ClusterMember) (m : M) (i : ℕ) (clock : Clock)
      → Durable old
      → 1 ≤ length old.log
      → copy_cluster config ≡ some cluster
      → i < length cluster
      → (s : Server M) × (start config m old.fd i clock ≡ some s) × Restored old s
  unfolding start reset_election_timeout get_voted_for
  start-Restored old config cluster m i clock kept some_entry copied lt =
      let (fresh, fresh_is, same_fd, same_cluster, same_index) =
        new_server-eq-some config cluster m old.fd i copied lt in
      let in_range : fresh.cluster_index < length fresh.cluster =
        omega (arith, same_index, ap length same_cluster) in
      let (s, s_is, back) = restore-Durable old fresh kept some_entry same_fd in_range in
      (
        reset_election_timeout clock s,
        rw (fresh_is, s_is),
        record { same_term = back.same_term; same_vote = back.same_vote; same_log = back.same_log },
      )

  pub persist-eq-some :
      (write_log : Bool) (n : ℕ) (s : Server M)
      → IsWord s
      → Writable s.log
      → (s' : Server M) × (persist write_log n s ≡ some s')
  unfolding persist
  persist-eq-some write_log n s words fits =
      let (slots, slots_are) = write_slots-eq-some write_log n s.log s.fd.slots fits in
      (
        record s {
          fd = record {
            page = some (page_of s.current_term words.vote (length s.log));
            slots = slots;
          };
        },
        rw (words.vote_is, slots_are),
      )

  restore_page-short :
      (s fresh : Server M) (words : IsWord s)
      → fresh.fd.slots ≡ s.fd.slots
      → length s.fd.slots < length s.log
      → fresh.cluster_index < length fresh.cluster
      → restore_page (page_of s.current_term words.vote (length s.log)) fresh ≡ none
  unfolding restore_page
  restore_page-short s fresh w same short lt =
      let t = page_term s.current_term w.vote (length s.log) w.term_word w.vote_word w.log_word in
      let v = page_vote s.current_term w.vote (length s.log) w.term_word w.vote_word w.log_word in
      let n = page_len s.current_term w.vote (length s.log) w.term_word w.vote_word w.log_word in
      let (s', set_is, voted) =
        set_voted_for-Voted w.vote (record fresh { current_term = s.current_term }) lt in
      rw (t, v, n, set_is, same, read_entries-short (length s.log) s.fd.slots short)

  -- A write of the page alone by a server whose file has fewer slots than its log has entries
  -- leaves a file on which a start panics.
  pub start-persist_header :
      (n : ℕ) (s s' : Server M) (config cluster : List ClusterMember) (m : M) (i : ℕ)
      (clock : Clock)
      → IsWord s
      → length s.fd.slots < length s.log
      → persist false n s ≡ some s'
      → copy_cluster config ≡ some cluster
      → i < length cluster
      → start config m s'.fd i clock ≡ none
  unfolding start persist write_slots
  start-persist_header n s s' config cluster m i clock words short e copied lt =
      let (fresh, fresh_is, same_fd, same_cluster, same_index) =
        new_server-eq-some config cluster m s'.fd i copied lt in
      let file : MetadataFile = record {
        page = some (page_of s.current_term words.vote (length s.log));
        slots = s.fd.slots;
      } in
      let written : record s { fd = file } ≡ s' = some_inj (sym (rw words.vote_is) ∙ e) in
      let fd_is : fresh.fd ≡ file = same_fd ∙ sym (ap (λ (x : Server M). x.fd) written) in
      let in_range : fresh.cluster_index < length fresh.cluster =
        omega (arith, same_index, ap length same_cluster) in
      rw (
        fresh_is,
        restore-page fresh _ (ap (λ (f : MetadataFile). f.page) fd_is),
        restore_page-short s fresh words (ap (λ (f : MetadataFile). f.slots) fd_is) short in_range,
      )

  -- Where the numbers of a server are uint64s, its log has an entry, no command has more than
  -- 112 bytes and the file has the entries that the write leaves as they are, `persist`
  -- returns, and a server that then starts on the file, with an index in a cluster without the
  -- id 0, has the same term, vote and log, the channels of the entries apart.
  pub restart-persist :
      (write_log : Bool) (n : ℕ) (s : Server M) (config cluster : List ClusterMember) (m : M)
      (i : ℕ) (clock : Clock)
      → IsWord s
      → Writable s.log
      → 1 ≤ length s.log
      → HoldAll s.fd.slots 0 (take (untouched_count write_log n s.log) s.log)
      → copy_cluster config ≡ some cluster
      → i < length cluster
      → (s' r : Server M) × (persist write_log n s ≡ some s')
        × (start config m s'.fd i clock ≡ some r)
        × Restored s r
  unfolding get_voted_for
  restart-persist write_log n s config cluster m i clock words fits some_entry held copied lt =
      let (s', e) = persist-eq-some write_log n s words fits in
      let done = persist-Persisted write_log n s s' words held e in
      let same = done.only_file in
      let still : 1 ≤ length s'.log =
        subst (λ (x : Server M). 1 ≤ length x.log) (sym same) some_entry in
      let (r, r_is, back) =
        start-Restored s' config cluster m i clock done.durable still copied lt in
      (
        s',
        r,
        e,
        r_is,
        record {
          same_term = back.same_term ∙ ap (λ (x : Server M). x.current_term) same;
          same_vote = back.same_vote ∙ ap get_voted_for same;
          same_log = back.same_log ∙ ap (λ (x : Server M). map stored_entry x.log) same;
        },
      )
