-- ===== src/Goraft/Append/Merge.antt =====
-- goraft/raft.go: the loop of `HandleAppendEntriesRequest` against a merge of two lists of entries.
use mathlib.Core.List.{append_assoc, append-nil}
use go_distributed_system.Base.{
  ℕ, suc, ◌+◌, ◌-◌, ◌≤◌, ◌≡◌, inl, inr, refl, Bool, true, false, none, some, List, [], ◌∷◌, ◌++◌,
  length, get_elem?, length-append, take-append_self, Bool-cases, nat_beq, if◌then◌else◌, arith,
}
use go_distributed_system.Goraft.State.{Entry}
use go_distributed_system.Goraft.Disk.Restart.{take_all}
use go_distributed_system.Goraft.Append.{
  reallocate, conflicts, keep_or_append, append_entry, append_loop,
}

-- The entries of a log from an index on, with those of a leader: up to the first that has another term
-- the log stays, and from there on the leader's replace it.
unfoldable pub merge : List Entry → List Entry → List Entry
merge log [] = log
merge [] (e ∷ es) = e ∷ es
merge (x ∷ log) (e ∷ es) =
    let rest = merge log es in if nat_beq x.term e.term then x ∷ rest else e ∷ es

-- How many entries of the leader are new.
unfoldable pub merge_count : List Entry → List Entry → ℕ
merge_count log [] = 0
merge_count [] (e ∷ es) = suc (length es)
merge_count (x ∷ log) (e ∷ es) =
    let rest = merge_count log es in if nat_beq x.term e.term then rest else suc (length es)

-- The capacity of a slice is at least its length.
abbrev pub IsCapacity : (ℕ → List Entry → Bool) → Type 0
IsCapacity full = (i : ℕ) (log : List Entry) → full i log ≡ true → length log ≤ i

reallocate_whole : (log : List Entry) → reallocate (length log) log ≡ log
unfolding reallocate
reallocate_whole log =
    let none_missing : length log - length log ≡ 0 = omega arith in
    rw (none_missing, take_all log, append-nil log)

if_same : (b : Bool) (x y : List Entry) → y ≡ x → (if b then y else x) ≡ x
if_same true x y e = e
if_same false x y e = refl

at_middle :
    (pre : List Entry) (x : Entry) (suf : List Entry)
    → get_elem? (pre ++ (x ∷ suf)) (length pre) ≡ some x
at_middle [] x suf = refl
at_middle (y ∷ pre) x suf = at_middle pre x suf

past_end : (pre : List Entry) → get_elem? pre (length pre) ≡ none
past_end [] = refl
past_end (y ∷ pre) = past_end pre

-- An entry of a list of one more entry goes to the end.
appended_one :
    (pre : List Entry) (e : Entry) → keep_or_append (length pre) e pre ≡ some (pre ++ (e ∷ []), 1)
unfolding keep_or_append
appended_one pre e =
    let longer : nat_beq (length (pre ++ (e ∷ []))) (length pre + 1) ≡ true =
      ground (arith, length-append pre (e ∷ [])) in
    rw (past_end pre, keep_or_append, longer)

kept_one :
    (pre : List Entry) (x : Entry) (suf : List Entry) (e : Entry)
    → nat_beq x.term e.term ≡ true
    → keep_or_append (length pre) e (pre ++ (x ∷ suf)) ≡ some (pre ++ (x ∷ suf), 0)
unfolding keep_or_append
kept_one pre x suf e same = rw (at_middle pre x suf, keep_or_append, same)

module _ (full : ℕ → List Entry → Bool) (capacity : IsCapacity full) where
  not_full :
      (pre : List Entry) (x : Entry) (suf : List Entry)
      → full (length pre) (pre ++ (x ∷ suf)) ≡ false
  not_full pre x suf =
      let all = pre ++ (x ∷ suf) in
      elim (Bool-cases (full (length pre) all)) [
        | inl is_full ↦
            absurd (omega (arith, capacity (length pre) all is_full, length-append pre (x ∷ suf)))
        | inr room ↦ room
      ]

  append_entry_end :
      (pre : List Entry) (e : Entry)
      → append_entry full (length pre) e pre ≡ some (pre ++ (e ∷ []), 1)
  unfolding append_entry conflicts
  append_entry_end pre e =
      let same =
        if_same (full (length pre) pre) pre (reallocate (length pre) pre) (reallocate_whole pre) in
      rw (same, past_end pre, conflicts, appended_one pre e)

  append_entry_same :
      (pre : List Entry) (x : Entry) (suf : List Entry) (e : Entry)
      → nat_beq x.term e.term ≡ true
      → append_entry full (length pre) e (pre ++ (x ∷ suf)) ≡ some (pre ++ (x ∷ suf), 0)
  unfolding append_entry conflicts keep_or_append
  append_entry_same pre x suf e same =
      rw (not_full pre x suf, at_middle pre x suf, conflicts, same, kept_one pre x suf e same)

  append_entry_other :
      (pre : List Entry) (x : Entry) (suf : List Entry) (e : Entry)
      → nat_beq x.term e.term ≡ false
      → append_entry full (length pre) e (pre ++ (x ∷ suf)) ≡ some (pre ++ (e ∷ []), 1)
  unfolding append_entry conflicts keep_or_append
  append_entry_other pre x suf e other = rw (
    not_full pre x suf,
    at_middle pre x suf,
    conflicts,
    other,
    take-append_self pre (x ∷ suf),
    appended_one pre e,
  )

  merge_none : (es : List Entry) → merge [] es ≡ es
  unfolding merge
  merge_none [] = refl
  merge_none (e ∷ es) = refl

  merge_count_none : (es : List Entry) → merge_count [] es ≡ length es
  unfolding merge_count
  merge_count_none [] = refl
  merge_count_none (e ∷ es) = refl

  -- What the loop does behind entries that it has passed.
  append_loop_end :
      (es pre : List Entry) (n : ℕ)
      → append_loop full (length pre) es pre n ≡ some (pre ++ es, n + length es)
  unfolding append_loop
  append_loop_end [] pre n = ground (arith, append-nil pre)
  append_loop_end (e ∷ es) pre n =
      let next : length (pre ++ (e ∷ [])) ≡ suc (length pre) =
        omega (arith, length-append pre (e ∷ [])) in
      let count : n + 1 + length es ≡ n + suc (length es) = omega arith in
      rw (
        append_entry_end pre e,
        ← next,
        append_loop_end es (pre ++ (e ∷ [])) (n + 1),
        append_assoc pre (e ∷ []) es,
        count,
      )

  -- The loop merges the entries of the leader into those behind the previous one.
  pub append_loop-merge :
      (es pre suf : List Entry) (n : ℕ)
      → append_loop full (length pre) es (pre ++ suf) n
        ≡ some (pre ++ merge suf es, n + merge_count suf es)
  unfolding append_loop merge merge_count
  append_loop-merge [] pre suf n = ground arith
  append_loop-merge (e ∷ es) pre [] n = rw (append-nil pre) (append_loop_end (e ∷ es) pre n)
  append_loop-merge (e ∷ es) pre (x ∷ suf) n = elim (Bool-cases (nat_beq x.term e.term)) [
    | inl same ↦
        let next : length (pre ++ (x ∷ [])) ≡ suc (length pre) =
          omega (arith, length-append pre (x ∷ [])) in
        let zero_new : n + 0 ≡ n = omega arith in
        let rest =
          rw (next, append_assoc pre (x ∷ []) suf, append_assoc pre (x ∷ []) (merge suf es)) at
            (append_loop-merge es (pre ++ (x ∷ [])) suf n) in
        rw (append_entry_same pre x suf e same, zero_new, same) rest
    | inr other ↦
        let next : length (pre ++ (e ∷ [])) ≡ suc (length pre) =
          omega (arith, length-append pre (e ∷ [])) in
        let count : n + 1 + length es ≡ n + suc (length es) = omega arith in
        let rest =
          rw (next, append_assoc pre (e ∷ []) es, count) at
            (append_loop_end es (pre ++ (e ∷ [])) (n + 1)) in
        rw (append_entry_other pre x suf e other, other) rest
  ]
