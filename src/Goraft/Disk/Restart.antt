-- ===== src/Goraft/Disk/Restart.antt =====
-- What a server that starts again finds in the file that another one left.
use mathlib.Core.List.{append_assoc}
use go_distributed_system.Base.{
  ℕ, ◌-◌, ◌^◌, ◌<◌, ◌≡◌, inl, inr, refl, sym, ◌∙◌, ap, subst, Bool, true, false, some, List, [],
  ◌∷◌, ◌++◌, length, take, drop, replicate, length-replicate, length-take, length-append,
  take-append_left, drop-append_left, Bool-cases, some_inj, >>=-eq-some, if_true, if_false, ltb,
  if◌then◌else◌, arith,
}
use go_distributed_system.Goraft.State.{Entry, Server, get_voted_for}
use go_distributed_system.Goraft.Disk.{
  entry_size, le_bytes, le_value, page_of, page_rest, new_count, new_log_offset, write_slots,
  persist,
}
use go_distributed_system.Goraft.Disk.Bytes.{length-le_bytes, le_value-le_bytes}
use go_distributed_system.Goraft.Disk.Slots.{
  HoldAll, FitAll, write_entries-Written, HoldAll-kept, HoldAll-join, FitAll-drop,
}

module _ (term vote len : ℕ) (small_term : term < 2 ^ 64) (small_vote : vote < 2 ^ 64)
    (small_len : len < 2 ^ 64) where
  pub page_term : le_value (take 8 (page_of term vote len)) ≡ term
  unfolding page_of
  page_term =
      ap le_value (take-append_left 8 (le_bytes 8 term) _ (length-le_bytes 8 term))
      ∙ le_value-le_bytes 8 term small_term

  pub page_vote : le_value (take 8 (drop 8 (page_of term vote len))) ≡ vote
  unfolding page_of
  page_vote =
      ap (λ b. le_value (take 8 b))
        (drop-append_left 8 (le_bytes 8 term) _ (length-le_bytes 8 term))
      ∙ ap le_value (take-append_left 8 (le_bytes 8 vote) _ (length-le_bytes 8 vote))
      ∙ le_value-le_bytes 8 vote small_vote

  pub page_len : le_value (take 8 (drop 16 (page_of term vote len))) ≡ len
  unfolding page_of
  page_len =
      let front = le_bytes 8 term ++ le_bytes 8 vote in
      let long : length front ≡ 16 = omega (
        arith,
        length-append (le_bytes 8 term) (le_bytes 8 vote),
        length-le_bytes 8 term,
        length-le_bytes 8 vote,
      ) in
      ap (λ b. le_value (take 8 (drop 16 b)))
        (sym (append_assoc (le_bytes 8 term) (le_bytes 8 vote) (le_bytes 8 len ++ page_rest)))
      ∙ ap (λ b. le_value (take 8 b)) (drop-append_left 16 front _ long)
      ∙ ap le_value (take-append_left 8 (le_bytes 8 len) _ (length-le_bytes 8 len))
      ∙ le_value-le_bytes 8 len small_len

pub take_all : (log : List Entry) → take (length log) log ≡ log
take_all [] = refl
take_all (e ∷ log) = ap (λ l. e ∷ l) (take_all log)

-- The entries that a write of the file leaves as they are.
abbrev pub untouched_count : Bool → ℕ → List Entry → ℕ
untouched_count write_log n log =
    if write_log then length log - new_count write_log n log else length log

pub persist_slots :
    (write_log : Bool) (n : ℕ) (log : List Entry) (slots slots' : List (List ℕ))
    → FitAll log
    → HoldAll slots 0 (take (untouched_count write_log n log) log)
    → write_slots write_log n log slots ≡ some slots'
    → HoldAll slots' 0 log
unfolding write_slots new_log_offset
persist_slots false n log slots slots' fits held e =
    subst (λ l. HoldAll l 0 log) (some_inj e) (subst (HoldAll slots 0) (take_all log) held)
persist_slots true n log slots slots' fits held e =
    let count = new_count true n log in
    elim (Bool-cases (ltb 0 count)) [
      | inl more ↦
          let offset = length log - count in
          let w =
            write_entries-Written offset (drop offset log) (replicate entry_size 0) slots slots'
              (length-replicate {A = ℕ} entry_size 0) (FitAll-drop offset log fits)
              (sym (if_true _ (some slots) more) ∙ e) in
          HoldAll-join slots' offset 0 log
            (HoldAll-kept slots slots' offset 0 (take offset log) w.old
              (omega (arith, length-take offset log)) held)
            (subst (λ k. HoldAll slots' k (drop offset log)) (omega arith) w.new)
      | inr nothing ↦
          let none_new : length log - count ≡ length log = ground arith in
          subst (λ l. HoldAll l 0 log) (some_inj (sym (if_false _ (some slots) nothing) ∙ e))
            (subst (HoldAll slots 0) (ap (λ k. take k log) none_new ∙ take_all log) held)
    ]

module _ {M : Type 0} where
  -- The numbers that go into the page are uint64s, and the terms of the log are.
  pub record IsWord (s : Server M) : Type 0 where
    pub term_word : s.current_term < 2 ^ 64
    pub vote : ℕ
    pub vote_is : get_voted_for s ≡ some vote
    pub vote_word : vote < 2 ^ 64
    pub log_word : length s.log < 2 ^ 64
    pub entries_word : FitAll s.log

  -- The file has the term, the vote and the log of the server.
  pub record Durable (s : Server M) : Type 0 where
    pub words : IsWord s
    pub page_is : s.fd.page ≡ some (page_of s.current_term words.vote (length s.log))
    pub slots_hold : HoldAll s.fd.slots 0 s.log

  -- What a call of `persist` changes.
  pub record Persisted (s s' : Server M) : Type 0 where
    pub durable : Durable s'
    pub only_file : s' ≡ record s { fd = s'.fd }

  pub persist-Persisted :
      (write_log : Bool) (n : ℕ) (s s' : Server M)
      → IsWord s
      → HoldAll s.fd.slots 0 (take (untouched_count write_log n s.log) s.log)
      → persist write_log n s ≡ some s'
      → Persisted s s'
  unfolding persist get_voted_for
  persist-Persisted write_log n s s' words held e =
      let (vote, vote_is, e1) = >>=-eq-some (get_voted_for s) _ e in
      let (slots, slots_are, e2) = >>=-eq-some (write_slots write_log n s.log s.fd.slots) _ e1 in
      let page = page_of s.current_term vote (length s.log) in
      let same : vote ≡ words.vote = some_inj (sym vote_is ∙ words.vote_is) in
      subst (Persisted s) (some_inj e2) (record {
        durable = record {
          words = record {
            term_word = words.term_word;
            vote = words.vote;
            vote_is = words.vote_is;
            vote_word = words.vote_word;
            log_word = words.log_word;
            entries_word = words.entries_word;
          };
          page_is = ap (λ v. some (page_of s.current_term v (length s.log))) same;
          slots_hold =
              persist_slots write_log n s.log s.fd.slots slots words.entries_word held slots_are;
        };
        only_file = refl;
      })
