-- ===== src/Goraft/Disk/Appended.antt =====
-- goraft/raft.go: `persist` after entries are appended to the log: the new ones alone are written.
use go_distributed_system.Base.{
  ℕ, ◌+◌, ◌^◌, ◌<◌, ◌≤◌, ◌≡◌, inl, inr, sym, ◌∙◌, ap, subst, true, false, ◌&&◌, some, List, ◌++◌,
  length, take, drop, replicate, take-append_self, drop-append_self, length-append, Bool-cases,
  if_true, if_false, ltb, arith,
}
use go_distributed_system.Goraft.State.{Entry, Server, get_voted_for}
use go_distributed_system.Goraft.Disk.{
  entry_size, new_count, new_log_offset, write_slots, persist, page_of,
}
use go_distributed_system.Goraft.Disk.Slots.{
  HoldAll, FitAll, FitAll-append, Writable, write_entries-eq-some,
}
use go_distributed_system.Goraft.Disk.Restart.{untouched_count}
use go_distributed_system.Goraft.Disk.Invariant.{IsSound}

pub offset_appended :
    (n : ℕ) (log es : List Entry)
    → n ≡ length es
    → 1 ≤ n
    → new_log_offset (log ++ es) (new_count true n (log ++ es)) ≡ length log
unfolding new_log_offset new_count
offset_appended n log es count some_new = ground (arith, length-append log es)

-- What the file held of the log stays where it is.
pub HoldAll-appended :
    (slots : List (List ℕ)) (n : ℕ) (log es : List Entry)
    → n ≡ length es
    → 1 ≤ n
    → HoldAll slots 0 log
    → HoldAll slots 0 (take (untouched_count true n (log ++ es)) (log ++ es))
unfolding new_log_offset
HoldAll-appended slots n log es count some_new held =
    subst (HoldAll slots 0)
      (sym (
        ap (λ k. take k (log ++ es)) (offset_appended n log es count some_new)
        ∙ take-append_self log es))
      held

pub write_slots_appended :
    (n : ℕ) (log es : List Entry) (slots : List (List ℕ))
    → n ≡ length es
    → 1 ≤ n
    → Writable es
    → (slots' : List (List ℕ)) × (write_slots true n (log ++ es) slots ≡ some slots')
unfolding write_slots
write_slots_appended n log es slots count some_new fits =
    let all = log ++ es in
    let offset = new_log_offset all (new_count true n all) in
    let new : drop offset all ≡ es =
      ap (λ k. drop k all) (offset_appended n log es count some_new) ∙ drop-append_self log es in
    let (slots', e) =
      write_entries-eq-some offset (drop offset all) (replicate entry_size 0) slots
        (subst Writable (sym new) fits) in
    elim (Bool-cases (true && ltb 0 (new_count true n all))) [
      | inl more ↦ (slots', if_true _ _ more ∙ e)
      | inr nothing ↦ (slots, if_false _ _ nothing)
    ]

module _ {M : Type 0} where
  -- The server with the new entries in its log.
  pub appended-IsSound :
      (s : Server M) (es : List Entry)
      → IsSound s
      → FitAll es
      → length s.log + length es < 2 ^ 64
      → IsSound (record s { log = s.log ++ es })
  unfolding get_voted_for
  appended-IsSound s es sound fits room =
      let longer = length-append s.log es in
      record {
        words = record {
          term_word = sound.words.term_word;
          vote = sound.words.vote;
          vote_is = sound.words.vote_is;
          vote_word = sound.words.vote_word;
          log_word = omega (arith, longer, room);
          entries_word = FitAll-append s.log es sound.words.entries_word fits;
        };
        some_entry = omega (arith, longer, sound.some_entry);
        in_range = sound.in_range;
        id_word = sound.id_word;
      }

  -- A write of the page alone returns.
  pub persist_header-eq-some :
      (s : Server M) → IsSound s → (s' : Server M) × (persist false 0 s ≡ some s')
  unfolding persist write_slots
  persist_header-eq-some s sound = (
    record s {
      fd = record {
        page = some (page_of s.current_term sound.words.vote (length s.log));
        slots = s.fd.slots;
      };
    },
    rw sound.words.vote_is,
  )

  -- A write of new entries with commands of at most 112 bytes returns.
  pub persist_appended-eq-some :
      (n : ℕ) (log es : List Entry) (s : Server M)
      → IsSound s
      → s.log ≡ log ++ es
      → n ≡ length es
      → 1 ≤ n
      → Writable es
      → (s' : Server M) × (persist true n s ≡ some s')
  unfolding persist
  persist_appended-eq-some n log es s sound is count some_new fits =
      let (slots', e) = write_slots_appended n log es s.fd.slots count some_new fits in
      (
        record s {
          fd = record {
            page = some (page_of s.current_term sound.words.vote (length s.log));
            slots = slots';
          };
        },
        rw (
          sound.words.vote_is,
          subst (λ l. write_slots true n l s.fd.slots ≡ some slots') (sym is) e,
        ),
      )
