-- ===== src/Raft/Append/Conflict.antt =====
-- What a refused AppendEntries request tells the leader.
use native.Mathlib.Decide.{dec_lt}
use go_distributed_system.Base.{
  ℕ, zero, suc, ◌≤◌, ◌<◌, ◌≡◌, ◌≢◌, refl, sym, ◌∙◌, ℤ, pos, minus_one, ◌≤ℤ◌, Bool, false, some,
  List, length, get_elem?, get_elem?_in_range, some_inj, int_beq_ne, int_beq_iff, Bool-cases, inl,
  inr, >>=-eq-some, ◌==◌, int_eq, arith, subst, if_true, if_false, negsuc,
}
use go_distributed_system.Raft.State.{
  is_dead, LogEntry, AppendEntriesArgs, AppendEntriesReply, ConsensusModule,
}
use go_distributed_system.Raft.Persist.{Gob}
use go_distributed_system.Raft.Append.{conflict_start, conflict_hint, prev_matches, append_entries}
use go_distributed_system.Raft.Append.Effect.{append_entries-Handled}

module _ {C : Type 0} (log : List (LogEntry C)) (t : ℤ) where
  -- c begins the run of entries of term t that ends before k.
  pub record IsRun (c k : ℕ) : Type 0 where
    pub bounded : c ≤ k
    pub inside : (i : ℕ) (e : LogEntry C) → c ≤ i → i < k → get_elem? log i ≡ some e → e.term ≡ t
    pub before : (j : ℕ) (e : LogEntry C) → c ≡ suc j → get_elem? log j ≡ some e → e.term ≢ t

  IsRun-stop :
      (i : ℕ) (e : LogEntry C) → get_elem? log i ≡ some e → e.term ≢ t → IsRun (suc i) (suc i)
  IsRun-stop i e found ne = record {
    bounded = omega arith;
    inside = λ j f lo hi. absurd (omega arith);
    before = λ j f same fj et. let p : i ≡ j = omega arith in ne (cc (found, fj, p, et));
  }

  IsRun-more :
      (i c : ℕ) (e : LogEntry C)
      → get_elem? log i ≡ some e
      → e.term ≡ t
      → IsRun c i
      → IsRun c (suc i)
  IsRun-more i c e found et r = record {
    bounded = omega arith;
    inside = λ j f lo hi fj. elim (dec_lt j i) [
      | yes lt ↦ r.inside j f lo lt fj
      | no ge ↦ let p : i ≡ j = omega arith in cc (found, fj, p, et)
    ];
    before = r.before;
  }

  conflict_start-IsRun : (k : ℕ) {c : ℕ} → conflict_start log t k ≡ some c → IsRun c k
  unfolding conflict_start
  conflict_start-IsRun zero h =
      subst (λ x. IsRun x 0) (some_inj h)
        (record {
          bounded = omega arith;
          inside = λ i e lo hi. absurd (omega arith);
          before = λ j e same. absurd (omega arith);
        })
  conflict_start-IsRun (suc i) {c = c} h =
      let (e, found, rest) = >>=-eq-some (get_elem? log i) _ h in
      elim (Bool-cases (e.term == t)) [
        | inl same ↦
            IsRun-more i c e found ((int_beq_iff e.term t).0 same)
              (conflict_start-IsRun i (sym (if_true _ _ same) ∙ rest))
        | inr diff ↦
            subst (λ x. IsRun x (suc i)) (some_inj (sym (if_false _ _ diff) ∙ rest))
              (IsRun-stop i e found (int_beq_ne e.term t diff))
      ]

  conflict_start_total : (k : ℕ) → k ≤ length log → (c : ℕ) × (conflict_start log t k ≡ some c)
  unfolding conflict_start
  conflict_start_total zero h = (0, refl)
  conflict_start_total (suc i) h =
      let (e, found) = get_elem?_in_range log i h in
      let (c, rest) = conflict_start_total i (omega arith) in
      elim (Bool-cases (e.term == t)) [
        | inl same ↦ (c, rw (found, same) rest)
        | inr diff ↦ (suc i, rw (found, diff))
      ]

module _ {C : Type 0} (log : List (LogEntry C)) (prev prev_term : ℤ) where
  -- The hint of a refusal. Either the log has no entry at `prev`, and the hint is its length with
  -- the term -1; or it has one of another term there, and the hint is that term with the place
  -- where the run of entries of that term begins.
  pub data Hint (index term : ℤ) : Type 0 where
    too_short :
        pos (length log) ≤ℤ prev → index ≡ pos (length log) → term ≡ minus_one → Hint index term
    clash :
        (p c : ℕ) (e : LogEntry C)
        → prev ≡ pos p
        → get_elem? log p ≡ some e
        → e.term ≢ prev_term
        → term ≡ e.term
        → index ≡ pos c
        → c ≤ p
        → IsRun log e.term c (suc p)
        → Hint index term

module _ {C : Type 0} (log : List (LogEntry C)) where
  -- The entry at `prev` is there, and is of another term.
  clash_entry :
      (p : ℕ) (prev_term : ℤ) (e : LogEntry C)
      → get_elem? log p ≡ some e
      → p < length log
      → prev_matches log (pos p) prev_term ≡ some false
      → (prev_term == e.term) ≡ false
  unfolding prev_matches
  clash_entry p prev_term e found lt h = ground arith

  clash_hint :
      (p c : ℕ) (e : LogEntry C) {index term : ℤ}
      → get_elem? log p ≡ some e
      → p < length log
      → conflict_start log e.term p ≡ some c
      → conflict_hint log (pos p) ≡ some (index, term)
      → (term ≡ e.term) × (index ≡ pos c)
  unfolding conflict_hint
  clash_hint p c e found lt start h = ground arith

  short_hint :
      (p : ℕ) {index term : ℤ}
      → length log ≤ p
      → conflict_hint log (pos p) ≡ some (index, term)
      → (index ≡ pos (length log)) × (term ≡ minus_one)
  unfolding conflict_hint
  short_hint p le h = ground arith

  pub conflict_hint-Hint :
      (prev prev_term : ℤ) {index term : ℤ}
      → prev_matches log prev prev_term ≡ some false
      → conflict_hint log prev ≡ some (index, term)
      → Hint log prev prev_term index term
  unfolding prev_matches
  conflict_hint-Hint (negsuc n) prev_term no_match h = absurd (ground arith)
  conflict_hint-Hint (pos p) prev_term no_match h = elim (dec_lt p (length log)) [
    | yes lt ↦
        let (e, found) = get_elem?_in_range log p lt in
        let (c, start) = conflict_start_total log e.term p (omega arith) in
        let (same_term, same_index) = clash_hint p c e found lt start h in
        let differs = int_beq_ne prev_term e.term (clash_entry p prev_term e found lt no_match) in
        clash p c e refl found (λ q. differs (sym q)) same_term same_index
          (conflict_start-IsRun log e.term p start).bounded
          (IsRun-more log e.term p c e found refl (conflict_start-IsRun log e.term p start))
    | no ge ↦
        let (same_index, same_term) = short_hint p (omega arith) h in
        too_short (omega arith) same_index same_term
  ]

module _ {C B : Type 0} (gob : Gob C B) (now : ℕ) (args : AppendEntriesArgs C)
    (cm : ConsensusModule C B) {cm' : ConsensusModule C B} {reply : AppendEntriesReply}
    {ready : Bool} (alive : is_dead cm.state ≡ false)
    (handled : append_entries gob now args cm ≡ some (cm', reply, ready))
    (refused : reply.success ≡ false) (in_term : args.term ≡ cm'.current_term) where
  -- A module that is not dead refuses a request of its current term only because the entry before the new ones is
  -- missing or is of another term, and the reply says which and from where on; the log and the commit index stay.
  pub append_entries-Hint :
      Hint cm.log args.prev_log_index args.prev_log_term reply.conflict_index reply.conflict_term
      × (cm'.log ≡ cm.log)
      × (cm'.commit_index ≡ cm.commit_index)
  append_entries-Hint =
      let o = append_entries-Handled gob now args cm alive handled in
      (
        conflict_hint-Hint cm.log args.prev_log_index args.prev_log_term
            (o.refused_prev refused in_term) (o.refused_hint refused in_term),
        o.refused_log refused,
        o.refused_commit refused,
      )

  -- The conflict index of such a refusal is at least 0 and at most the index that was tried.
  pub conflict_index-le :
      (pos 0 ≤ℤ reply.conflict_index) × (reply.conflict_index ≤ℤ args.prev_log_index)
  conflict_index-le = go append_entries-Hint.0
    where
      go :
          {index term : ℤ}
          → Hint cm.log args.prev_log_index args.prev_log_term index term
          → (pos 0 ≤ℤ index) × (index ≤ℤ args.prev_log_index)
      go (too_short le e _) = ground arith
      go (clash p c e ep _ _ _ ec le run) = ground arith
