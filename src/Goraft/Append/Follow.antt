-- ===== src/Goraft/Append/Follow.antt =====
-- goraft/raft.go: what `HandleAppendEntriesRequest` tests before it answers, and the commit index.
use native.Mathlib.Decide.{dec_lt}
use go_distributed_system.Base.{
  ℕ, suc, ◌<◌, ◌≤◌, ◌≡◌, ◌⊎◌, inl, inr, refl, sym, subst, Bool, true, false, not, ◌&&◌, ◌||◌, List,
  length, get_elem?, get_elem?-lt, nat_beq, Bool-cases, Option-cases, if_true, if_false, ltb, arith,
}
use go_distributed_system.Goraft.State.{
  Entry, ServerState, Server, leader_state, follower_state, candidate_state,
}
use go_distributed_system.Goraft.Disk.Invariant.{Kept, Kept-volatile}
use go_distributed_system.Goraft.Append.{
  advanced_commit, is_follower, is_candidate, valid_previous_log, follow_leader,
}

pub valid_previous_log-lt :
    (prev term : ℕ) (log : List Entry)
    → 1 ≤ length log
    → valid_previous_log prev term log ≡ true
    → prev < length log
unfolding valid_previous_log
valid_previous_log-lt prev term log le e = elim (Option-cases (get_elem? log prev)) [
  | inl missing ↦ let first = rw missing at e in ground arith
  | inr (x, at_prev) ↦ get_elem?-lt log prev at_prev
]

earlier_candidate :
    (term current_term : ℕ) (st : ServerState)
    → term ≤ current_term
    → st ≡ candidate_state
    → nat_beq term current_term && is_candidate st ≡ false
    → term < current_term
unfolding is_candidate
earlier_candidate term current_term leader_state le p e = cc p
earlier_candidate term current_term follower_state le p e = cc p
earlier_candidate term current_term candidate_state le p e = ground arith

pub refused_because :
    (term current_term : ℕ) (st : ServerState)
    → ((st ≡ candidate_state) → term < current_term)
    → not (is_follower st) || ltb term current_term ≡ true
    → (term < current_term) ⊎ (st ≡ leader_state)
unfolding is_follower
refused_because term current_term leader_state earlier e = inr refl
refused_because term current_term follower_state earlier e = inl (ground arith)
refused_because term current_term candidate_state earlier e = inl (earlier refl)

pub accepted_term :
    (term current_term : ℕ) (b : Bool)
    → term ≤ current_term
    → b || ltb term current_term ≡ false
    → term ≡ current_term
accepted_term term current_term true le e = cc e
accepted_term term current_term false le e = ground arith

pub guard_passed :
    (st : ServerState) (b : Bool) → not (is_follower st) || b ≡ false → st ≡ follower_state
unfolding is_follower
guard_passed leader_state b e = cc e
guard_passed follower_state b e = refl
guard_passed candidate_state b e = cc e

-- The commit index that a leader's request brings a log of this length to.
abbrev pub Raised : (leader_commit old length_after new : ℕ) → Type 0
Raised leader_commit old length_after new =
    ((leader_commit ≤ old) × (new ≡ old))
    ⊎ ((old < leader_commit) × (leader_commit < length_after) × (new ≡ leader_commit))
    ⊎ ((old < leader_commit) × (length_after ≤ leader_commit) × (suc new ≡ length_after))

pub advanced_commit-Raised :
    (leader_commit old length_after : ℕ)
    → 1 ≤ length_after
    → Raised leader_commit old length_after (advanced_commit leader_commit old length_after)
unfolding advanced_commit
advanced_commit-Raised leader_commit old length_after le =
    elim (Bool-cases (ltb old leader_commit)) [
      | inr behind ↦ inl (ground arith, if_false _ _ behind)
      | inl ahead ↦ elim (dec_lt leader_commit length_after) [
        | yes lt ↦ inr (inl (ground arith, lt, ground arith))
        | no ge ↦ inr (inr (ground arith, omega arith, ground arith))
      ]
    ]

module _ {M : Type 0} where
  -- The server that has followed the leader of its term is no candidate of that term.
  pub record Followed (term : ℕ) (s s' : Server M) : Type 0 where
    pub kept : Kept s'
    pub same_log : s'.log ≡ s.log
    pub same_commit : s'.commit_index ≡ s.commit_index
    pub reached : term ≤ s'.current_term
    pub no_candidate : (s'.state ≡ candidate_state) → term < s'.current_term

  pub follow_leader-Followed :
      (term : ℕ) (s : Server M)
      → Kept s
      → term ≤ s.current_term
      → Followed term s (follow_leader term s)
  unfolding follow_leader is_candidate
  follow_leader-Followed term s kept le =
      let follows = nat_beq term s.current_term && is_candidate s.state in
      elim (Bool-cases follows) [
        | inl yes_leader ↦
            let followed : Followed term s (record s { state = follower_state }) = record {
              kept =
                  Kept-volatile s follower_state s.commit_index s.last_applied s.election_timeout
                    s.heartbeat_timeout s.statemachine kept;
              same_log = refl;
              same_commit = refl;
              reached = le;
              no_candidate = λ p. cc p;
            } in
            subst (Followed term s) (sym (if_true _ _ yes_leader)) followed
        | inr not_leader ↦
            let stayed : Followed term s s = record {
              kept = kept;
              same_log = refl;
              same_commit = refl;
              reached = le;
              no_candidate = λ p. earlier_candidate term s.current_term s.state le p not_leader;
            } in
            subst (Followed term s) (sym (if_false _ _ not_leader)) stayed
      ]
