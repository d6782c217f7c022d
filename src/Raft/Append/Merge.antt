-- ===== src/Raft/Append/Merge.antt =====
-- A reference for the loop of the AppendEntries handler, by recursion on the two lists: keep the
-- old entries while the terms agree, and replace the rest from the first disagreement on.
use go_distributed_system.Base.{
  int_beq_ne, some_inj, beq_self, int_beq_iff, ℕ, zero, suc, ◌+◌, ◌≤◌, ◌<◌, ◌≡◌, refl, sym, ap, ◌∙◌,
  true, false, some, List, [], ◌∷◌, ◌++◌, length, get_elem?, take, drop, drop_step, drop_all,
  take-append-drop, ltb, ◌==◌, int_eq, int_beq_iff, if◌then◌else◌, arith, Bool-cases, Option-cases,
  inl, inr, get_elem?-none_le,
}
use go_distributed_system.Raft.State.{LogEntry}
use go_distributed_system.Raft.Append.{find_insertion, insert_entries}

module _ {C : Type 0} where
  unfoldable pub merge : List (LogEntry C) → List (LogEntry C) → List (LogEntry C)
  merge [] new = new
  merge (o ∷ old) [] = o ∷ old
  merge (o ∷ old) (n ∷ new) =
      let rest = merge old new in if o.term == n.term then o ∷ rest else n ∷ new

  merge-nil : (old : List (LogEntry C)) → merge old [] ≡ old
  unfolding merge
  merge-nil [] = refl
  merge-nil (o ∷ old) = refl

  take_step :
      (n : ℕ) (xs : List (LogEntry C)) {x : LogEntry C}
      → get_elem? xs n ≡ some x
      → (ys : List (LogEntry C)) → take (suc n) xs ++ ys ≡ take n xs ++ (x ∷ ys)
  take_step n [] h ys = ground arith
  take_step zero (x ∷ xs) h ys = ground arith
  take_step (suc n) (x ∷ xs) h ys = ap (λ l. x ∷ l) (take_step n xs h ys)

  -- What the handler does with the two indices that the loop returns.
  abbrev splice : List (LogEntry C) → List (LogEntry C) → ℕ × ℕ → List (LogEntry C)
  splice log entries p = if ltb p.1 (length entries) then take p.0 log ++ drop p.1 entries else log

  splice_here :
      (log entries : List (LogEntry C)) (li ni : ℕ)
      → (ni < length entries → merge (drop li log) (drop ni entries) ≡ drop ni entries)
      → splice log entries (li, ni) ≡ take li log ++ merge (drop li log) (drop ni entries)
  splice_here log entries li ni h = elim (Bool-cases (ltb ni (length entries))) [
    | inl lt ↦ rw (lt, h (ground arith))
    | inr ge ↦
        rw
          (ge, drop_all ni entries (ground arith), merge-nil (drop li log), take-append-drop li log)
  ]

  module _ (log entries : List (LogEntry C)) (li ni : ℕ) {old new : LogEntry C}
      (eo : get_elem? log li ≡ some old) (en : get_elem? entries ni ≡ some new) where
    merge_same :
        (old.term == new.term) ≡ true
        → merge (drop li log) (drop ni entries)
          ≡ old ∷ merge (drop (suc li) log) (drop (suc ni) entries)
    unfolding merge
    merge_same same = rw (drop_step li log eo, drop_step ni entries en, same)

    merge_diff :
        (old.term == new.term) ≡ false → merge (drop li log) (drop ni entries) ≡ drop ni entries
    unfolding merge
    merge_diff diff = rw (drop_step li log eo, drop_step ni entries en, diff)

  find_insertion-merge :
      (fuel : ℕ) (log entries : List (LogEntry C)) (li ni : ℕ)
      → length entries ≤ fuel + ni
      → splice log entries (find_insertion fuel log entries li ni)
        ≡ take li log ++ merge (drop li log) (drop ni entries)
  unfolding find_insertion merge
  find_insertion-merge zero log entries li ni h =
      splice_here log entries li ni (λ lt. absurd (omega arith))
  find_insertion-merge (suc fuel) log entries li ni h = elim (Option-cases (get_elem? log li)) [
    | inl end ↦
        rw (end, find_insertion)
          (splice_here log entries li ni
            (λ _. rw (drop_all li log (get_elem?-none_le log li end), merge)))
    | inr (old, eo) ↦ elim (Option-cases (get_elem? entries ni)) [
      | inl end ↦
          rw (eo, end, find_insertion)
            (splice_here log entries li ni
              (λ lt. absurd (omega (arith, get_elem?-none_le entries ni end))))
      | inr (new, en) ↦ elim (Bool-cases (old.term == new.term)) [
        | inl same ↦
            rw (eo, en, same, find_insertion)
              (find_insertion-merge fuel log entries (suc li) (suc ni) (omega arith)
                ∙ take_step li log eo _
                ∙ ap (λ l. take li log ++ l) (sym (merge_same log entries li ni eo en same)))
        | inr diff ↦
            rw (eo, en, diff, find_insertion)
              (splice_here log entries li ni (λ _. merge_diff log entries li ni eo en diff))
      ]
    ]
  ]

  -- The handler's log is the reference's: what stands before `start`, then the old entries from
  -- there on merged with the new ones.
  pub insert_entries-eq-merge :
      (log entries : List (LogEntry C)) (start : ℕ)
      → insert_entries log start entries ≡ take start log ++ merge (drop start log) entries
  unfolding insert_entries
  insert_entries-eq-merge log entries start =
      find_insertion-merge (length entries) log entries start 0 (omega arith)

  -- Facts about the reference.
  pub length-merge : (old new : List (LogEntry C)) → length new ≤ length (merge old new)
  unfolding merge
  length-merge [] new = omega arith
  length-merge (o ∷ old) [] = omega arith
  length-merge (o ∷ old) (n ∷ new) = ground (arith, length-merge old new)

  -- The merged list carries the terms of the new entries.
  pub merge_terms :
      (old new : List (LogEntry C)) (i : ℕ) {n : LogEntry C}
      → get_elem? new i ≡ some n
      → (e : LogEntry C) × (get_elem? (merge old new) i ≡ some e) × (e.term ≡ n.term)
  unfolding merge
  merge_terms [] new i {n = n} h = (n, h, refl)
  merge_terms (o ∷ old) [] i h = ground arith
  merge_terms (o ∷ old) (m ∷ new) zero {n = n} h = elim (Bool-cases (o.term == m.term)) [
    | inl same ↦
        rw same (
          o,
          refl,
          (int_beq_iff o.term m.term).0 same ∙ ap (λ (e : LogEntry C). e.term) (some_inj h),
        )
    | inr diff ↦ rw diff (n, h, refl)
  ]
  merge_terms (o ∷ old) (m ∷ new) (suc i) {n = n} h = elim (Bool-cases (o.term == m.term)) [
    | inl same ↦ rw same (merge_terms old new i h)
    | inr diff ↦ rw diff (n, h, refl)
  ]

  merge_self : (new : List (LogEntry C)) → merge new new ≡ new
  unfolding merge
  merge_self [] = refl
  merge_self (n ∷ new) = rw (beq_self n.term, merge_self new)

  -- A prefix of the old entries that does not conflict with the new ones stays.
  abbrev pub Agrees : ℕ → List (LogEntry C) → List (LogEntry C) → Type 0
  Agrees k old new =
      (i : ℕ) (o n : LogEntry C)
      → i < k
      → get_elem? old i ≡ some o
      → get_elem? new i ≡ some n
      → o.term ≡ n.term

  pub merge_keeps :
      (k : ℕ) (old new : List (LogEntry C))
      → Agrees k old new
      → k ≤ length old
      → take k (merge old new) ≡ take k old
  unfolding merge
  merge_keeps zero old new h le = refl
  merge_keeps (suc k) [] new h le = elim le [ ]
  merge_keeps (suc k) (o ∷ old) [] h le = refl
  merge_keeps (suc k) (o ∷ old) (n ∷ new) h le = elim (Bool-cases (o.term == n.term)) [
    | inl same ↦ rw same (
        ap (λ l. o ∷ l)
          (merge_keeps k old new (λ i a b lt. h (suc i) a b (omega arith)) (omega arith)))
    | inr diff ↦ absurd (int_beq_ne o.term n.term diff (h 0 o n (omega arith) refl refl))
  ]

  pub merge_idempotent : (old new : List (LogEntry C)) → merge (merge old new) new ≡ merge old new
  unfolding merge
  merge_idempotent [] [] = refl
  merge_idempotent [] (n ∷ new) = merge_self (n ∷ new)
  merge_idempotent (o ∷ old) [] = refl
  merge_idempotent (o ∷ old) (n ∷ new) = elim (Bool-cases (o.term == n.term)) [
    | inl same ↦ rw (same, same) (ap (λ l. o ∷ l) (merge_idempotent old new))
    | inr diff ↦ rw diff (merge_self (n ∷ new))
  ]
