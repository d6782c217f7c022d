-- ===== src/Goraft/Leader/Commit.antt =====
-- goraft/raft.go: the commit index that `advanceCommitIndex` finds.
use go_distributed_system.Base.{
  ℕ, zero, suc, ◌+◌, ◌-◌, ◌/◌, ◌<◌, ◌≤◌, ◌≡◌, ◌⊎◌, inl, inr, refl, sym, ◌∙◌, subst, ◌||◌, List, [],
  ◌∷◌, length, nat_beq, Bool-cases, if_true, if_false, if◌then◌else◌, leb, ltb, arith,
}
use go_distributed_system.Goraft.State.{ClusterMember}
use go_distributed_system.Goraft.Leader.{missing_matches, commit_loop}

-- The members, from member j on, that are known to have the log up to index i.
unfoldable pub count_matches : ℕ → ℕ → ℕ → List ClusterMember → ℕ
count_matches own i j [] = 0
count_matches own i j (c ∷ cs) =
    let rest = count_matches own i (suc j) cs in
    if nat_beq j own || leb i c.match_index then suc rest else rest

pub missing_matches-count :
    (own i j quorum : ℕ) (cs : List ClusterMember)
    → missing_matches own i j quorum cs ≡ quorum - count_matches own i j cs
unfolding missing_matches count_matches
missing_matches-count own i j quorum [] = omega arith
missing_matches-count own i j quorum (c ∷ cs) =
    let counted = missing_matches-count own i (suc j) (quorum - 1) cs in
    let passed = missing_matches-count own i (suc j) quorum cs in ground arith

-- A quorum of the cluster has the log up to index i.
abbrev pub QuorumHas : ℕ → List ClusterMember → ℕ → Type 0
QuorumHas own cs i = length cs / 2 + 1 ≤ count_matches own i 0 cs

-- What the search gives: the greatest index with a quorum, or the old one.
pub record Committed (own : ℕ) (cs : List ClusterMember) (old last new : ℕ) : Type 0 where
  pub which : (new ≡ old) ⊎ ((old < new) × (new ≤ last) × QuorumHas own cs new)
  pub greatest : (i : ℕ) → new < i → i ≤ last → count_matches own i 0 cs < length cs / 2 + 1

split_last : (i last : ℕ) → i ≤ suc last → (i ≤ last) ⊎ (i ≡ suc last)
split_last i last le = ground arith

-- The search ends with the greatest index behind the commit index that a quorum has, of whatever term
-- its entry is, and else leaves the commit index.
pub commit_loop-Committed :
    (own : ℕ) (cs : List ClusterMember) (old last : ℕ)
    → Committed own cs old last (commit_loop own cs old last)
unfolding commit_loop
commit_loop-Committed own cs old zero = record {
  which = inl refl;
  greatest = λ i lt le. absurd (omega arith);
}
commit_loop-Committed own cs old (suc last) =
    let quorum = length cs / 2 + 1 in
    let missing = missing_matches own (suc last) 0 quorum cs in
    let count = missing_matches-count own (suc last) 0 quorum cs in
    let rest = commit_loop-Committed own cs old last in
    elim (Bool-cases (ltb old (suc last))) [
      | inr past ↦
          subst (Committed own cs old (suc last)) (sym (if_false _ _ past))
            (record { which = inl refl; greatest = λ i lt le. absurd (ground arith) })
      | inl open_index ↦ elim (Bool-cases (nat_beq missing 0)) [
        | inl has ↦
            subst (Committed own cs old (suc last)) (sym (if_true _ _ open_index ∙ if_true _ _ has))
              (record {
                which = inr (ground arith, omega arith, ground (arith, count));
                greatest = λ i lt le. absurd (omega arith);
              })
        | inr lacks ↦
            subst (Committed own cs old (suc last))
              (sym (if_true _ _ open_index ∙ if_false _ _ lacks))
              (record {
                which = elim rest.which [
                  | inl same ↦ inl same
                  | inr (later, le, has) ↦ inr (later, omega arith, has)
                ];
                greatest = λ i lt le. elim (split_last i last le) [
                  | inl before ↦ rest.greatest i lt before
                  | inr same ↦
                      subst (λ k. count_matches own k 0 cs < quorum) (sym same)
                        (ground (arith, count))
                ];
              })
      ]
    ]
