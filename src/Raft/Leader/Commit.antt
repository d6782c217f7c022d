-- ===== src/Raft/Leader/Commit.antt =====
-- Which entries a leader commits.
use native.Mathlib.Decide.{ℕ_discrete}
use go_distributed_system.Base.{
  ◌==◌, int_eq, subst, ℕ, zero, suc, ◌+◌, ◌≤◌, ◌<◌, ◌≡◌, refl, ℤ, pos, true, false, some, get_elem?,
  arith, Bool-cases, Option-cases, inl, inr, insert, minus_one, nat?, Bool, ◌≤ℤ◌, ◌+ℤ◌, ◌<ℤ◌,
  length, pos_part, ◌-ℤ◌, int_eq, ◌-◌, not, ◌↔◌, ◌≢◌, some_inj, sym, ◌∙◌, int_beq_iff, int_beq_ne,
  ap, ◌*◌, ltb→lt,
}
use go_distributed_system.Raft.State.{LogEntry, ConsensusModule}
use go_distributed_system.Raft.Leader.{
  peers_at_least, has_majority, committable, scan_commit, record_success,
}

module _ {C B : Type 0} (cm : ConsensusModule C B) where
  -- The last committable index from `i` on, over `rounds` indices; `old` if there is none.
  pub data IsLast (rounds i : ℕ) (old : ℤ) (result : ℤ) : Type 0 where
    unmoved :
        result ≡ old
        → ((k : ℕ) → i ≤ k → k < i + rounds → committable cm k ≡ false)
        → IsLast rounds i old result
    moved :
        (j : ℕ)
        → result ≡ pos j
        → i ≤ j
        → j < i + rounds
        → committable cm j ≡ true
        → ((k : ℕ) → j < k → k < i + rounds → committable cm k ≡ false)
        → IsLast rounds i old result

  scan_commit-IsLast : (rounds i : ℕ) (old : ℤ) → IsLast rounds i old (scan_commit cm rounds i old)
  unfolding scan_commit
  scan_commit-IsLast zero i old = unmoved refl (λ k lo hi. absurd (omega arith))
  scan_commit-IsLast (suc rounds) i old = elim (Bool-cases (committable cm i)) [
    | inl can ↦ rw can (later_of (scan_commit-IsLast rounds (suc i) (pos i)) can)
    | inr cannot ↦ rw cannot (skip (scan_commit-IsLast rounds (suc i) old) cannot)
  ]
    where
      later_of :
          {r : ℤ}
          → IsLast rounds (suc i) (pos i) r
          → committable cm i ≡ true
          → IsLast (suc rounds) i old r
      later_of (unmoved e none_after) can =
          moved i e (omega arith) (omega arith) can
            (λ k lo hi. none_after k (omega arith) (omega arith))
      later_of (moved j e lo hi is none_after) can =
          moved j e (omega arith) (omega arith) is (λ k l h. none_after k l (omega arith))

      skip :
          {r : ℤ}
          → IsLast rounds (suc i) old r
          → committable cm i ≡ false
          → IsLast (suc rounds) i old r
      skip (unmoved e none_after) cannot = unmoved e (λ k lo hi. elim (ℕ_discrete k i) [
        | yes here ↦ rw here cannot
        | no ne ↦ none_after k (omega arith) (omega arith)
      ])
      skip (moved j e lo hi is none_after) cannot =
          moved j e (omega arith) (omega arith) is (λ k l h. none_after k l (omega arith))

  -- A committable index holds an entry of the current term that more than half of the cluster has.
  committable_iff :
      (i : ℕ)
      → committable cm i ≡ true
      → (e : LogEntry C) × (get_elem? cm.log i ≡ some e)
        × (e.term ≡ cm.current_term)
        × (has_majority cm i ≡ true)
  unfolding committable
  committable_iff i h = elim (Option-cases (get_elem? cm.log i)) [
    | inl out ↦ absurd (ground arith)
    | inr (e, found) ↦ (e, found, ground arith, ground arith)
  ]

majority_count :
    {C B : Type 0} (cm : ConsensusModule C B) (i : ℕ)
    → has_majority cm i ≡ true
    → length cm.peer_ids + 1 < (1 + peers_at_least cm.match_index (pos i) cm.peer_ids) * 2
unfolding has_majority
majority_count cm i h = ltb→lt _ _ h

differ_iff : (a b : ℤ) {c : ℤ} {n : Bool} → n ≡ not (c == b) → a ≡ c → (n ≡ true) ↔ (a ≢ b)
differ_iff a b {c = c} e same = elim (Bool-cases (c == b)) [
  | inl eq ↦ (λ h. absurd (ground arith), λ ne. absurd (ne (same ∙ (int_beq_iff c b).0 eq)))
  | inr ne ↦ (λ h x. int_beq_ne c b ne (sym same ∙ x), λ h. e ∙ ap not ne)
]

module _ {C B : Type 0} where
  -- The state in which the leader counts: the reply of the peer is recorded.
  abbrev pub recorded : ℤ → ℤ → ℕ → ConsensusModule C B → ConsensusModule C B
  recorded peer_id ni sent cm = record cm {
    next_index = insert peer_id (ni +ℤ pos sent) cm.next_index;
    match_index = insert peer_id (ni +ℤ pos sent -ℤ pos 1) cm.match_index;
  }

  -- The commit index lies in the log, or is -1.
  abbrev pub CommitInLog : ConsensusModule C B → Type 0
  CommitInLog cm = (minus_one ≤ℤ cm.commit_index) × (cm.commit_index <ℤ pos (length cm.log))

  -- The first index past the commit index.
  abbrev pub first_new : ConsensusModule C B → ℕ
  first_new cm = pos_part (cm.commit_index +ℤ pos 1)

  record_success_lem :
      (peer_id ni : ℤ) (sent i : ℕ) (cm : ConsensusModule C B)
      → nat? (cm.commit_index +ℤ pos 1) ≡ some i
      → record_success peer_id ni sent cm
        ≡ some (
          record (recorded peer_id ni sent cm) {
            commit_index =
                scan_commit (recorded peer_id ni sent cm) (length cm.log - i) i cm.commit_index;
          },
          not (
              scan_commit (recorded peer_id ni sent cm) (length cm.log - i) i cm.commit_index
              == cm.commit_index),
        )
  unfolding record_success
  record_success_lem peer_id ni sent i cm h = rw h

  next_of_commit :
      (cm : ConsensusModule C B)
      → CommitInLog cm
      → nat? (cm.commit_index +ℤ pos 1) ≡ some (pos_part (cm.commit_index +ℤ pos 1))
  next_of_commit cm h = ground arith

  -- What the leader does with an accepted request: it commits the last entry of its term, past its
  -- commit index, that more than half of the cluster is known to have, if there is one, and tells
  -- whether it did.
  pub record Commits (peer_id ni : ℤ) (sent : ℕ) (cm cm' : ConsensusModule C B) (notify : Bool)
      : Type 0 where
    pub chosen :
        IsLast
          (recorded peer_id ni sent cm)
          (length cm.log - first_new cm)
          (first_new cm)
          cm.commit_index
          cm'.commit_index
    pub log_kept : cm'.log ≡ cm.log
    pub applied_kept : cm'.last_applied ≡ cm.last_applied
    pub term_kept : cm'.current_term ≡ cm.current_term
    pub notified : (notify ≡ true) ↔ (cm'.commit_index ≢ cm.commit_index)
    pub in_log : CommitInLog cm'
    pub grows : cm.commit_index ≤ℤ cm'.commit_index

  IsLast-bounds :
      (cm : ConsensusModule C B) (i : ℕ) {r : ℤ}
      → CommitInLog cm
      → nat? (cm.commit_index +ℤ pos 1) ≡ some i
      → IsLast cm (length cm.log - i) i cm.commit_index r
      → (minus_one ≤ℤ r) × (r <ℤ pos (length cm.log)) × (cm.commit_index ≤ℤ r)
  IsLast-bounds cm i h n (unmoved e _) = ground arith
  IsLast-bounds cm i h n (moved j e lo hi _ _) = ground arith

  pub record_success-Commits :
      (peer_id ni : ℤ) (sent : ℕ) (cm : ConsensusModule C B) {cm' : ConsensusModule C B}
      {notify : Bool}
      → CommitInLog cm
      → record_success peer_id ni sent cm ≡ some (cm', notify)
      → Commits peer_id ni sent cm cm' notify
  record_success-Commits peer_id ni sent cm {cm' = cm'} h e =
      let before = recorded peer_id ni sent cm in
      let i = pos_part (cm.commit_index +ℤ pos 1) in
      let n = next_of_commit cm h in
      let same = some_inj (sym (record_success_lem peer_id ni sent i cm n) ∙ e) in
      let last : IsLast before (length cm.log - i) i cm.commit_index cm'.commit_index =
        subst (IsLast before (length cm.log - i) i cm.commit_index) (λ k. (same k).0.commit_index)
          (scan_commit-IsLast before (length cm.log - i) i cm.commit_index) in
      let (low, high, up) = IsLast-bounds before i h n last in
      let same_log : cm'.log ≡ cm.log = λ k. (sym same k).0.log in
      record {
        chosen = last;
        log_kept = same_log;
        applied_kept = λ k. (sym same k).0.last_applied;
        term_kept = λ k. (sym same k).0.current_term;
        notified =
            differ_iff cm'.commit_index cm.commit_index (λ k. (sym same k).1)
              (λ k. (sym same k).0.commit_index);
        in_log = (low, rw same_log high);
        grows = up;
      }

  -- If an accepted request moves the commit index of a leader, which was -1 or lay in the log, there is an entry of the leader's term
  -- at the new one, and more than half of the cluster, the leader counted, is recorded to have it.
  pub commit_needs_majority :
      (peer_id ni : ℤ) (sent : ℕ) (cm : ConsensusModule C B) {cm' : ConsensusModule C B}
      {notify : Bool}
      → CommitInLog cm
      → record_success peer_id ni sent cm ≡ some (cm', notify)
      → cm'.commit_index ≢ cm.commit_index
      → (j : ℕ) × (e : LogEntry C) × (cm'.commit_index ≡ pos j)
        × (get_elem? cm'.log j ≡ some e)
        × (e.term ≡ cm'.current_term)
        × (length cm.peer_ids + 1
            < (1 + peers_at_least (recorded peer_id ni sent cm).match_index (pos j) cm.peer_ids)
              * 2)
  commit_needs_majority peer_id ni sent cm {cm' = cm'} h e ne =
      let c = record_success-Commits peer_id ni sent cm h e in go c c.chosen
    where
      go :
          {notify : Bool}
          → Commits peer_id ni sent cm cm' notify
          → IsLast
              (recorded peer_id ni sent cm)
              (length cm.log - first_new cm)
              (first_new cm)
              cm.commit_index
              cm'.commit_index
          → (j : ℕ) × (e : LogEntry C) × (cm'.commit_index ≡ pos j)
            × (get_elem? cm'.log j ≡ some e)
            × (e.term ≡ cm'.current_term)
            × (length cm.peer_ids + 1
                < (1 + peers_at_least (recorded peer_id ni sent cm).match_index (pos j) cm.peer_ids)
                  * 2)
      go c (unmoved same _) = absurd (ne same)
      go c (moved j at_j lo hi is _) =
          let (e, found, in_term, maj) = committable_iff (recorded peer_id ni sent cm) j is in
          (
            j,
            e,
            at_j,
            rw c.log_kept found,
            in_term ∙ sym c.term_kept,
            majority_count (recorded peer_id ni sent cm) j maj,
          )
