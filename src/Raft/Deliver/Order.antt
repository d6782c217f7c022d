-- ===== src/Raft/Deliver/Order.antt =====
-- Committed entries go out in the order of the log, each once, with their indices.
use native.Mathlib.Decide.{dec_lt}
use go_distributed_system.Base.{
  ℕ, zero, suc, ◌+◌, ◌-◌, ◌≤◌, ◌≡◌, refl, sym, ap, ◌∙◌, ℤ, pos, minus_one, ◌<ℤ◌, ◌≤ℤ◌, ◌+ℤ◌,
  pos_part, some, List, [], ◌∷◌, ◌++◌, length, drop, take, length-take_le, arith, take_nil,
  drop_nil,
}
use go_distributed_system.Raft.State.{LogEntry, CommitEntry, ConsensusModule}
use go_distributed_system.Raft.Deliver.{slice, commit_entries, commit_chan_sender}

module _ {C : Type 0} where
  -- The entries from index `from` up to, and without, index `to`.
  abbrev pub window : List (LogEntry C) → ℕ → ℕ → List (LogEntry C)
  window log from to = take (to - from) (drop from log)

  slice-window :
      (log : List (LogEntry C)) (from to : ℕ)
      → to ≤ length log
      → slice log (pos from) (pos to) ≡ some (window log from to)
  unfolding slice
  slice-window log from to h = ground arith

  window_empty : (log : List (LogEntry C)) (from to : ℕ) → to ≤ from → window log from to ≡ []
  window_empty log from to h = let e : to - from ≡ 0 = omega arith in rw e

  -- What was taken before, and then the window, is what is taken up to its end.
  take-window :
      (log : List (LogEntry C)) (from to : ℕ)
      → from ≤ to
      → take from log ++ window log from to ≡ take to log
  take-window [] from to h =
      rw (take_nil from, drop_nil from) (take_nil (to - from) ∙ sym (take_nil to))
  take-window (x ∷ log) zero to h = let e : to - 0 ≡ to = omega arith in rw e
  take-window (x ∷ log) (suc from) zero h = absurd (omega arith)
  take-window (x ∷ log) (suc from) (suc to) h =
      let e : suc to - suc from ≡ to - from = omega arith in
      rw e (ap (λ l. x ∷ l) (take-window log from to (omega arith)))

  -- Commands with their indices, from an index on.
  abbrev pub numbered : ℕ → List (LogEntry C) → List (ℤ × C)
  numbered n [] = []
  numbered n (e ∷ es) = (pos n, e.command) ∷ numbered (suc n) es

  numbered-append :
      (n : ℕ) (xs ys : List (LogEntry C))
      → numbered n (xs ++ ys) ≡ numbered n xs ++ numbered (n + length xs) ys
  numbered-append n [] ys = let e : n + 0 ≡ n = omega arith in rw e
  numbered-append n (x ∷ xs) ys =
      let e : n + suc (length xs) ≡ suc n + length xs = omega arith in
      rw e (ap (λ l. (pos n, x.command) ∷ l) (numbered-append (suc n) xs ys))

  -- The index and the command of what goes out.
  abbrev pub reported : List (CommitEntry C) → List (ℤ × C)
  reported [] = []
  reported (e ∷ es) = (e.index, e.command) ∷ reported es

  reported-append :
      (xs ys : List (CommitEntry C)) → reported (xs ++ ys) ≡ reported xs ++ reported ys
  reported-append [] ys = refl
  reported-append (x ∷ xs) ys = ap (λ l. (x.index, x.command) ∷ l) (reported-append xs ys)

  reported-commit_entries :
      (t : ℤ) (n : ℕ) (es : List (LogEntry C))
      → reported (commit_entries t (pos n) es) ≡ numbered n es
  unfolding commit_entries
  reported-commit_entries t n [] = refl
  reported-commit_entries t n (e ∷ es) =
      let step : pos n +ℤ pos 1 ≡ pos (suc n) = ground arith in
      ap (λ l. (pos n, e.command) ∷ l)
        (ap (λ i. reported (commit_entries t i es)) step ∙ reported-commit_entries t (suc n) es)

module _ {C B : Type 0} where
  -- -1 ≤ lastApplied ≤ commitIndex < len(log)
  pub record IsIndexed (cm : ConsensusModule C B) : Type 0 where
    pub applied_low : minus_one ≤ℤ cm.last_applied
    pub applied_high : cm.last_applied ≤ℤ cm.commit_index
    pub commit_high : cm.commit_index <ℤ pos (length cm.log)

  -- How many entries a module has delivered, and how many it has committed.
  abbrev pub delivered_count : ConsensusModule C B → ℕ
  delivered_count cm = pos_part (cm.last_applied +ℤ pos 1)

  abbrev pub committed_count : ConsensusModule C B → ℕ
  committed_count cm = pos_part (cm.commit_index +ℤ pos 1)

  -- Every round succeeds, leaves nothing to deliver, and sends the entries between.
  pub commit_chan_sender_lem :
      (cm : ConsensusModule C B)
      → IsIndexed cm
      → commit_chan_sender cm
        ≡ some (
          record cm { last_applied = cm.commit_index },
          commit_entries cm.current_term
              (pos (delivered_count cm))
              (window cm.log (delivered_count cm) (committed_count cm)),
        )
  unfolding commit_chan_sender commit_entries
  commit_chan_sender_lem cm h = elim (dec_lt (delivered_count cm) (committed_count cm)) [
    | yes lt ↦ ground (arith, slice-window cm.log (delivered_count cm) (committed_count cm))
    | no ge ↦
        ground (arith, window_empty cm.log (delivered_count cm) (committed_count cm) (omega arith))
  ]

  -- A round that goes on where the last one stopped.
  pub round_in_order :
      (cm cm' : ConsensusModule C B) (out new : List (CommitEntry C))
      → IsIndexed cm
      → reported out ≡ numbered 0 (take (delivered_count cm) cm.log)
      → new
        ≡ commit_entries cm.current_term
            (pos (delivered_count cm))
            (window cm.log (delivered_count cm) (committed_count cm))
      → take (committed_count cm) cm.log ≡ take (delivered_count cm') cm'.log
      → reported (out ++ new) ≡ numbered 0 (take (delivered_count cm') cm'.log)
  round_in_order cm cm' out new ok before sent after =
      let from = delivered_count cm in
      let old = take from cm.log in
      let rest = window cm.log from (committed_count cm) in
      let long : from ≡ 0 + length old = omega (arith, length-take_le from cm.log (ground arith)) in
      reported-append out new
      ∙ ap (λ l. l ++ reported new) before
      ∙ ap (λ l. numbered 0 old ++ l)
          (ap reported sent
            ∙ reported-commit_entries cm.current_term from rest
            ∙ ap (λ n. numbered n rest) long)
      ∙ sym (numbered-append 0 old rest)
      ∙ ap (numbered 0) (take-window cm.log from (committed_count cm) (ground arith) ∙ after)
