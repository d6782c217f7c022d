-- ===== src/Goraft/Leader/Advance.antt =====
-- goraft/raft.go: `advanceCommitIndex`, which each run of the loop of a leader or a follower calls.
use go_distributed_system.Base.{
  ℕ, ◌-◌, ◌<◌, ◌≤◌, ◌≡◌, ◌⊎◌, inl, inr, refl, sym, ◌∙◌, ap, subst, true, false, Option, none, some,
  List, length, get_elem?, get_elem?_in_range, nat_beq, Bool-cases, if_true, if_false,
  if◌then◌else◌, ltb, arith,
}
use go_distributed_system.Goraft.State.{Entry, Server, increment}
use go_distributed_system.Goraft.Disk.Invariant.{Kept, Kept-volatile}
use go_distributed_system.Goraft.Leader.{
  is_leader, commit_loop, advance_quorum, apply_next, advance_commit_index,
}
use go_distributed_system.Goraft.Leader.Commit.{Committed, commit_loop-Committed}

module _ {M : Type 0} where
  -- What a run of the leader's or the follower's loop does with the log.
  pub record Advanced {R : Type 0} (run : List ℕ → M → M × R) (s s' : Server M) : Type 0 where
    pub kept : Kept s'
    pub same_log : s'.log ≡ s.log
    pub commit_le : s.commit_index ≤ s'.commit_index
    pub in_log : s'.commit_index < length s'.log
    pub quorum :
        ((is_leader s.state ≡ false) × (s'.commit_index ≡ s.commit_index))
        ⊎ ((is_leader s.state ≡ true)
            × Committed s.cluster_index s.cluster s.commit_index (length s.log - 1) s'.commit_index)
    pub next :
        ((s'.commit_index < s.last_applied)
          × (s'.last_applied ≡ s.last_applied)
          × (s'.statemachine ≡ s.statemachine))
        ⊎ ((s.last_applied ≤ s'.commit_index)
            × (s'.last_applied ≡ increment s.last_applied)
            × (e : Entry) × (get_elem? s.log s.last_applied ≡ some e)
            × (s'.statemachine ≡ (
                if nat_beq (length e.command) 0
                then s.statemachine
                else (run e.command s.statemachine).0)))

  -- The first half leaves all but the commit index.
  record Searched (s s1 : Server M) : Type 0 where
    only_commit : s1 ≡ record s { commit_index = s1.commit_index }
    commit_le : s.commit_index ≤ s1.commit_index
    in_log : s1.commit_index < length s.log
    quorum :
        ((is_leader s.state ≡ false) × (s1.commit_index ≡ s.commit_index))
        ⊎ ((is_leader s.state ≡ true)
            × Committed s.cluster_index s.cluster s.commit_index (length s.log - 1) s1.commit_index)

  advance_quorum-Searched :
      (s : Server M) → s.commit_index < length s.log → Searched s (advance_quorum s)
  unfolding advance_quorum
  advance_quorum-Searched s inside =
      let last = length s.log - 1 in
      let new = commit_loop s.cluster_index s.cluster s.commit_index last in
      let found = commit_loop-Committed s.cluster_index s.cluster s.commit_index last in
      elim (Bool-cases (is_leader s.state)) [
        | inr other ↦
            let stayed : Searched s s = record {
              only_commit = refl;
              commit_le = omega arith;
              in_log = inside;
              quorum = inl (other, refl);
            } in
            subst (Searched s) (sym (if_false _ _ other)) stayed
        | inl leads ↦
            let grown : Searched s (record s { commit_index = new }) = record {
              only_commit = refl;
              commit_le = elim found.which [
                | inl same ↦ omega (arith, same)
                | inr (lt, _, _) ↦ omega arith
              ];
              in_log = elim found.which [
                | inl same ↦ omega (arith, same)
                | inr (_, le, _) ↦ omega arith
              ];
              quorum = inr (leads, found);
            } in
            subst (Searched s) (sym (if_true _ _ leads)) grown
      ]

  apply_next-Advanced :
      {R : Type 0} (run : List ℕ → M → M × R) (s : Server M) (commit : ℕ)
      → Kept s
      → s.commit_index ≤ commit
      → commit < length s.log
      → (((is_leader s.state ≡ false) × (commit ≡ s.commit_index))
          ⊎ ((is_leader s.state ≡ true)
              × Committed s.cluster_index s.cluster s.commit_index (length s.log - 1) commit))
      → (s' : Server M) × (sent : Option (ℕ × R)) × (apply_next run
            (record s { commit_index = commit })
          ≡ some (s', sent))
        × Advanced run s s'
  unfolding apply_next
  apply_next-Advanced {R} run s commit kept le inside how =
      let at = λ (applied : ℕ) (m : M).
        Kept-volatile s s.state commit applied s.election_timeout s.heartbeat_timeout m kept in
      elim (Bool-cases (ltb commit s.last_applied)) [
        | inl done ↦ (
          record s { commit_index = commit },
          none,
          if_true _ _ done,
          record {
            kept = at s.last_applied s.statemachine;
            same_log = refl;
            commit_le = le;
            in_log = inside;
            quorum = how;
            next = inl (ground arith, refl, refl);
          },
        )
        | inr more ↦
            let due : s.last_applied ≤ commit = ground arith in
            let (e, at_e) = get_elem?_in_range s.log s.last_applied (omega arith) in
            let noop = nat_beq (length e.command) 0 in
            let m : M = if noop then s.statemachine else (run e.command s.statemachine).0 in
            let s' : Server M = record s {
              commit_index = commit;
              last_applied = increment s.last_applied;
              statemachine = m;
            } in
            let advanced : Advanced run s s' = record {
              kept = at (increment s.last_applied) m;
              same_log = refl;
              commit_le = le;
              in_log = inside;
              quorum = how;
              next = inr (due, refl, e, at_e, refl);
            } in
            elim (Bool-cases noop) [
              | inl empty ↦ (s', none, rw (more, at_e, empty), advanced)
              | inr command ↦ (
                s',
                elim e.result [ none ↦ none | some c ↦ some (c, (run e.command s.statemachine).1) ],
                rw (more, at_e, command),
                advanced,
              )
            ]
      ]

  advance_commit_index-volatile :
      {R : Type 0} (run : List ℕ → M → M × R) (s s' : Server M) (sent : Option (ℕ × R))
      → advance_commit_index run s ≡ some (s', sent)
      → s' ≡ record s {
        commit_index = s'.commit_index;
        last_applied = s'.last_applied;
        statemachine = s'.statemachine;
      }
  unfolding advance_commit_index advance_quorum apply_next
  advance_commit_index-volatile run s s' sent e = ground arith

  -- Wherever the commit index is, what `advanceCommitIndex` changes is not in the file.
  pub advanced-Kept :
      {R : Type 0} (run : List ℕ → M → M × R) (s s' : Server M) (sent : Option (ℕ × R))
      → Kept s
      → advance_commit_index run s ≡ some (s', sent)
      → Kept s'
  advanced-Kept run s s' sent kept e =
      subst Kept (sym (advance_commit_index-volatile run s s' sent e)) (
        Kept-volatile s s.state s'.commit_index s'.last_applied s.election_timeout
          s.heartbeat_timeout s'.statemachine kept)

  -- Where the commit index is in the log, `advanceCommitIndex` returns, and leaves it in the
  -- log, which stays, and the file up to date. The commit index does not fall; a leader raises
  -- it to the greatest index that a quorum of the cluster has, of whatever term the entry is,
  -- and any other server leaves it. Where the next entry is committed it is applied, unless its
  -- command is empty, and counted; else none is.
  pub advance_commit_index-Advanced :
      {R : Type 0} (run : List ℕ → M → M × R) (s : Server M)
      → Kept s
      → s.commit_index < length s.log
      → (s' : Server M) × (sent : Option (ℕ × R)) × (advance_commit_index run s ≡ some (s', sent))
        × Advanced run s s'
  unfolding advance_commit_index
  advance_commit_index-Advanced {R} run s kept inside =
      let found = advance_quorum-Searched s inside in
      let (s', sent, e, advanced) =
        apply_next-Advanced run s (advance_quorum s).commit_index kept found.commit_le found.in_log
          found.quorum in
      (s', sent, ap (apply_next run) found.only_commit ∙ e, advanced)
