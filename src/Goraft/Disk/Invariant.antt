-- ===== src/Goraft/Disk/Invariant.antt =====
-- goraft/raft.go: what the handlers keep true of a server and of its file.
use go_distributed_system.Base.{
  ℕ, ◌^◌, ◌<◌, ◌≤◌, ◌≡◌, ◌⊎◌, inl, inr, refl, sym, ◌∙◌, ap, subst, Bool, none, some, List, ◌∷◌,
  length, take, some_inj, >>=-eq-some,
}
use go_distributed_system.Goraft.State.{ClusterMember, ServerState, Server, get_voted_for}
use go_distributed_system.Goraft.Disk.{write_slots, persist, page_of}
use go_distributed_system.Goraft.Disk.Slots.{HoldAll}
use go_distributed_system.Goraft.Disk.Restart.{untouched_count, IsWord, Durable}
use go_distributed_system.Goraft.Disk.Padded.{padded, write_slots-padded}

module _ {M : Type 0} where
  -- The numbers are uint64s, the log has an entry, and the server is in its cluster.
  pub record IsSound (s : Server M) : Type 0 where
    pub words : IsWord s
    pub some_entry : 1 ≤ length s.log
    pub in_range : s.cluster_index < length s.cluster
    pub id_word : s.id < 2 ^ 64

  abbrev pub PageIs : (s : Server M) → ℕ → Type 0
  PageIs s vote = s.fd.page ≡ some (page_of s.current_term vote (length s.log))

  -- The file is up to date: nothing was written since the server started on an empty file, or the page
  -- has the term, the vote and the length of the log; and the slots have the entries, but for a blank
  -- first one where there is no slot.
  pub record Kept (s : Server M) : Type 0 where
    pub sound : IsSound s
    pub page_is : (s.fd.page ≡ none) ⊎ PageIs s sound.words.vote
    pub held : HoldAll (padded s.fd.slots) 0 s.log

  -- The rest of the state does not matter to the file.
  pub Kept-volatile :
      (s : Server M) (st : ServerState) (commit applied election heartbeat : ℕ) (m : M)
      → Kept s
      → Kept (record s {
        state = st;
        commit_index = commit;
        last_applied = applied;
        election_timeout = election;
        heartbeat_timeout = heartbeat;
        statemachine = m;
      })
  unfolding get_voted_for
  Kept-volatile s st commit applied election heartbeat m kept =
      let words = kept.sound.words in
      record {
        sound = record {
          words = record {
            term_word = words.term_word;
            vote = words.vote;
            vote_is = words.vote_is;
            vote_word = words.vote_word;
            log_word = words.log_word;
            entries_word = words.entries_word;
          };
          some_entry = kept.sound.some_entry;
          in_range = kept.sound.in_range;
          id_word = kept.sound.id_word;
        };
        page_is = kept.page_is;
        held = kept.held;
      }

  -- A change of the cluster that keeps its length and the vote of the server.
  pub Kept-cluster :
      (s : Server M) (cs : List ClusterMember)
      → Kept s
      → length cs ≡ length s.cluster
      → get_voted_for (record s { cluster = cs }) ≡ get_voted_for s
      → Kept (record s { cluster = cs })
  Kept-cluster s cs kept same_length same_vote =
      let words = kept.sound.words in
      record {
        sound = record {
          words = record {
            term_word = words.term_word;
            vote = words.vote;
            vote_is = same_vote ∙ words.vote_is;
            vote_word = words.vote_word;
            log_word = words.log_word;
            entries_word = words.entries_word;
          };
          some_entry = kept.sound.some_entry;
          in_range = subst (λ n. s.cluster_index < n) (sym same_length) kept.sound.in_range;
          id_word = kept.sound.id_word;
        };
        page_is = kept.page_is;
        held = kept.held;
      }

  -- What a call of `persist` leaves.
  pub record Saved (s s' : Server M) : Type 0 where
    pub kept : Kept s'
    pub only_file : s' ≡ record s { fd = s'.fd }
    pub page_is : PageIs s' kept.sound.words.vote

  pub persist-Saved :
      (write_log : Bool) (n : ℕ) (s s' : Server M)
      → IsSound s
      → HoldAll (padded s.fd.slots) 0 (take (untouched_count write_log n s.log) s.log)
      → persist write_log n s ≡ some s'
      → Saved s s'
  unfolding persist get_voted_for
  persist-Saved write_log n s s' sound held e =
      let words = sound.words in
      let (vote, vote_is, e1) = >>=-eq-some (get_voted_for s) _ e in
      let (slots, slots_are, e2) = >>=-eq-some (write_slots write_log n s.log s.fd.slots) _ e1 in
      let page = page_of s.current_term vote (length s.log) in
      let same =
        ap (λ v. some (page_of s.current_term v (length s.log)))
          (some_inj (sym vote_is ∙ words.vote_is)) in
      subst (Saved s) (some_inj e2) (record {
        kept = record {
          sound = record {
            words = record {
              term_word = words.term_word;
              vote = words.vote;
              vote_is = words.vote_is;
              vote_word = words.vote_word;
              log_word = words.log_word;
              entries_word = words.entries_word;
            };
            some_entry = sound.some_entry;
            in_range = sound.in_range;
            id_word = sound.id_word;
          };
          page_is = inr same;
          held =
              write_slots-padded write_log n s.log s.fd.slots slots words.entries_word held
                slots_are;
        };
        only_file = refl;
        page_is = same;
      })

  -- Where the page and a slot were written, a restart reads back the term, the vote and the log.
  pub Kept-Durable :
      (s : Server M) {p : List ℕ} {b : List ℕ} {bs : List (List ℕ)}
      → Kept s
      → s.fd.page ≡ some p
      → s.fd.slots ≡ b ∷ bs
      → Durable s
  unfolding padded
  Kept-Durable s {p} {b} {bs} kept page slots = record {
    words = kept.sound.words;
    page_is = elim kept.page_is [ inl none_yet ↦ cc (none_yet, page) | inr is ↦ is ];
    slots_hold = subst (λ l. HoldAll l 0 s.log) (ap padded slots ∙ sym slots) kept.held;
  }
