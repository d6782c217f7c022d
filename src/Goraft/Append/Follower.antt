-- ===== src/Goraft/Append/Follower.antt =====
-- goraft/raft.go: `HandleAppendEntriesRequest`: the log of the follower is merged with the leader's
-- entries, and the file has the new ones before the request is answered.
use mathlib.Core.List.{append-nil}
use go_distributed_system.Base.{
  ℕ, zero, suc, ◌+◌, ◌^◌, ◌<◌, ◌≤◌, ◌≡◌, sym, ◌∙◌, ap, subst, Bool, true, not, some, List, [], ◌∷◌,
  ◌++◌, length, take, drop, nat_beq, length-append, length-drop, length-take_le, take-append-drop,
  arith,
}
use go_distributed_system.Goraft.State.{Entry, Server, get_voted_for}
use go_distributed_system.Goraft.Disk.{persist}
use go_distributed_system.Goraft.Disk.Slots.{
  HoldAll, FitAll, FitAll-append, FitAll-drop, Writable, Writable-drop,
}
use go_distributed_system.Goraft.Disk.Restart.{untouched_count}
use go_distributed_system.Goraft.Disk.Padded.{padded}
use go_distributed_system.Goraft.Disk.Invariant.{IsSound, PageIs, Kept, Saved, persist-Saved}
use go_distributed_system.Goraft.Disk.Appended.{
  HoldAll-appended, persist_header-eq-some, persist_appended-eq-some,
}
use go_distributed_system.Goraft.Votes.Saved.{persist_header-Saved}
use go_distributed_system.Goraft.Append.{
  AppendEntriesRequest, append_loop, advanced_commit, append_valid,
}
use go_distributed_system.Goraft.Append.Merge.{merge, merge_count, IsCapacity, append_loop-merge}
use go_distributed_system.Goraft.Append.Splice.{
  Spliced, merge-Spliced, Spliced-behind, HoldAll-front, FitAll-front,
}

-- The log of a follower after it has taken the entries behind the index prev.
unfoldable pub merged : ℕ → List Entry → List Entry → List Entry
merged prev log es = take (prev + 1) log ++ merge (drop (prev + 1) log) es

unfoldable pub merged_count : ℕ → List Entry → List Entry → ℕ
merged_count prev log es = merge_count (drop (prev + 1) log) es

-- The loop of the handler is the merge, for every capacity of the slice.
pub append_loop-merged :
    (full : ℕ → List Entry → Bool) (prev : ℕ) (log es : List Entry)
    → IsCapacity full
    → prev < length log
    → append_loop full (prev + 1) es log 0 ≡ some (merged prev log es, merged_count prev log es)
unfolding merged merged_count
append_loop-merged full prev log es capacity lt =
    let at : length (take (prev + 1) log) ≡ prev + 1 =
      length-take_le (prev + 1) log (omega arith) in
    let all = take-append-drop (prev + 1) log in
    let count : 0 + merge_count (drop (prev + 1) log) es ≡ merge_count (drop (prev + 1) log) es =
      omega arith in
    rw (at, all, count) at
      (append_loop-merge full capacity es (take (prev + 1) log) (drop (prev + 1) log) 0)

pub merged-Spliced :
    (prev : ℕ) (log es : List Entry)
    → Spliced log es (merged prev log es) (merged_count prev log es)
unfolding merged merged_count
merged-Spliced prev log es =
    let front = take (prev + 1) log in
    let back = drop (prev + 1) log in
    subst (λ l. Spliced l es (front ++ merge back es) (merge_count back es))
      (take-append-drop (prev + 1) log)
      (Spliced-behind front back es (merge back es) (merge_count back es) (merge-Spliced back es))

not_zero : (n : ℕ) → not (nat_beq (suc n) 0) ≡ true
not_zero n = ground arith

merged_some : (prev : ℕ) (log es : List Entry) → prev < length log → 1 ≤ length (merged prev log es)
unfolding merged
merged_some prev log es lt = omega (
  arith,
  length-append (take (prev + 1) log) (merge (drop (prev + 1) log) es),
  length-take_le (prev + 1) log,
)

module _ {M : Type 0} where
  -- The write of the entries that are new, or of the page alone where none is.
  persist_new-Saved :
      (n : ℕ) (front es : List Entry) (s s' : Server M)
      → IsSound s
      → s.log ≡ front ++ es
      → n ≡ length es
      → HoldAll (padded s.fd.slots) 0 front
      → persist (not (nat_beq n 0)) n s ≡ some s'
      → Saved s s'
  persist_new-Saved zero front [] s s' sound is count held e =
      persist_header-Saved s s' sound
        (subst (HoldAll (padded s.fd.slots) 0) (sym (is ∙ append-nil front)) held) e
  persist_new-Saved zero front (x ∷ es) s s' sound is count held e = absurd (omega arith)
  persist_new-Saved (suc n) front es s s' sound is count held e =
      persist-Saved true (suc n) s s' sound
        (subst (λ l. HoldAll (padded s.fd.slots) 0 (take (untouched_count true (suc n) l) l))
          (sym is) (HoldAll-appended (padded s.fd.slots) (suc n) front es count (omega arith) held))
        (subst (λ b. persist b (suc n) s ≡ some s') (not_zero n) e)

  persist_new-eq-some :
      (n : ℕ) (front es : List Entry) (s : Server M)
      → IsSound s
      → s.log ≡ front ++ es
      → n ≡ length es
      → Writable es
      → (s' : Server M) × (persist (not (nat_beq n 0)) n s ≡ some s')
  persist_new-eq-some zero front es s sound is count fits = persist_header-eq-some s sound
  persist_new-eq-some (suc n) front es s sound is count fits =
      let (s', e) = persist_appended-eq-some (suc n) front es s sound is count (omega arith) fits in
      (s', subst (λ b. persist b (suc n) s ≡ some s') (sym (not_zero n)) e)

  -- A server whose log is spliced, and is then written.
  module _ (s : Server M) (es log' : List Entry) (n commit : ℕ) (kept : Kept s)
      (spliced : Spliced s.log es log' n) (some_entry : 1 ≤ length log') (fits : FitAll es)
      (room : length s.log + length es < 2 ^ 64) where
    spliced_server : Server M
    spliced_server = record s { log = log'; commit_index = commit }

    spliced-IsSound : IsSound spliced_server
    unfolding spliced_server get_voted_for
    spliced-IsSound =
        let words = kept.sound.words in
        let front_fits =
          FitAll-front spliced.front spliced.back
            (subst FitAll spliced.log_is words.entries_word) in
        let short : length log' < 2 ^ 64 = omega (
          arith,
          ap length spliced.log_is,
          ap length spliced.new_is,
          length-append spliced.front spliced.back,
          length-append spliced.front (drop spliced.skip es),
          length-drop spliced.skip es,
          room,
        ) in
        record {
          words = record {
            term_word = words.term_word;
            vote = words.vote;
            vote_is = words.vote_is;
            vote_word = words.vote_word;
            log_word = short;
            entries_word = subst FitAll (sym spliced.new_is) (
                FitAll-append spliced.front (drop spliced.skip es) front_fits
                  (FitAll-drop spliced.skip es fits));
          };
          some_entry = some_entry;
          in_range = kept.sound.in_range;
          id_word = kept.sound.id_word;
        }

    front-HoldAll : HoldAll (padded s.fd.slots) 0 spliced.front
    front-HoldAll =
        HoldAll-front (padded s.fd.slots) spliced.front spliced.back
          (subst (HoldAll (padded s.fd.slots) 0) spliced.log_is kept.held)

    -- The write returns, and leaves the spliced log in the file.
    spliced-Saved :
        Writable es
        → (s' : Server M) × (persist (not (nat_beq n 0)) n spliced_server ≡ some s')
          × Saved spliced_server s'
    unfolding spliced_server
    spliced-Saved writable =
        let new = drop spliced.skip es in
        let (s', e) =
          persist_new-eq-some n spliced.front new spliced_server spliced-IsSound spliced.new_is
            spliced.count (Writable-drop spliced.skip es writable) in
        (
          s',
          e,
          persist_new-Saved n spliced.front new spliced_server s' spliced-IsSound spliced.new_is
              spliced.count front-HoldAll e,
        )

  -- What the follower has after a request that it accepts.
  pub record Accepted (req : AppendEntriesRequest) (s s' : Server M) : Type 0 where
    pub kept : Kept s'
    pub page_is : PageIs s' kept.sound.words.vote
    pub log_is : s'.log ≡ merged req.prev_log_index s.log req.entries
    pub commit_is :
        s'.commit_index ≡ advanced_commit req.leader_commit s.commit_index (length s'.log)
    pub same_term : s'.current_term ≡ s.current_term
    pub same_vote : get_voted_for s' ≡ get_voted_for s
    pub same_state : s'.state ≡ s.state

  -- A valid request is accepted, and nothing in it makes the handler panic.
  pub append_valid-Accepted :
      (full : ℕ → List Entry → Bool) (req : AppendEntriesRequest) (s : Server M)
      → Kept s
      → IsCapacity full
      → req.prev_log_index < length s.log
      → FitAll req.entries
      → Writable req.entries
      → length s.log + length req.entries < 2 ^ 64
      → (s' : Server M) × (append_valid full req s ≡ some s') × Accepted req s s'
  unfolding append_valid spliced_server get_voted_for
  append_valid-Accepted full req s kept capacity lt fits writable room =
      let prev = req.prev_log_index in
      let log' = merged prev s.log req.entries in
      let n = merged_count prev s.log req.entries in
      let commit = advanced_commit req.leader_commit s.commit_index (length log') in
      let (s', e, saved) =
        spliced-Saved s req.entries log' n commit kept (merged-Spliced prev s.log req.entries)
          (merged_some prev s.log req.entries lt) fits room writable in
      let is = saved.only_file in
      (
        s',
        rw (append_loop-merged full prev s.log req.entries capacity lt, e),
        record {
          kept = saved.kept;
          page_is = saved.page_is;
          log_is = ap (λ (x : Server M). x.log) is;
          commit_is =
              ap (λ (x : Server M). x.commit_index) is
              ∙ ap (λ l. advanced_commit req.leader_commit s.commit_index (length l))
                  (sym (ap (λ (x : Server M). x.log) is));
          same_term = ap (λ (x : Server M). x.current_term) is;
          same_vote = ap get_voted_for is;
          same_state = ap (λ (x : Server M). x.state) is;
        },
      )
