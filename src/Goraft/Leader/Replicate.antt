-- ===== src/Goraft/Leader/Replicate.antt =====
-- goraft/raft.go: an exchange of `appendEntries` between a leader and a follower.
use native.Mathlib.Nat.{zero-add}
use go_distributed_system.Base.{
  ℕ, zero, suc, ◌+◌, ◌-◌, ◌%◌, ◌^◌, ◌<◌, ◌≤◌, ◌≡◌, inl, inr, refl, sym, ◌∙◌, ap, subst, Bool, true,
  false, some, List, [], ◌∷◌, ◌++◌, map, length, get_elem?, get_elem?-lt, take, drop, nat_beq, leb,
  length-take, length-take_le, length-drop, take-append_left, drop-append_left, take_nil,
  Bool-cases, some_inj, >>=-eq-some, if◌then◌else◌, arith,
}
use go_distributed_system.Goraft.State.{Entry, ClusterMember, Server, decrement, max}
use go_distributed_system.Goraft.Disk.Restart.{take_all}
use go_distributed_system.Goraft.Append.{AppendEntriesRequest}
use go_distributed_system.Goraft.Append.Merge.{merge}
use go_distributed_system.Goraft.Append.Follower.{merged}
use go_distributed_system.Goraft.Leader.{
  max_append_entries_batch, new_entries, append_request, accepted_member,
}

-- The terms of a log.
abbrev pub terms : List Entry → List ℕ
terms log = map (λ (e : Entry). e.term) log

-- A merge has the terms of the leader's entries.
terms-merge : (log es : List Entry) → terms (take (length es) (merge log es)) ≡ terms es
unfolding merge
terms-merge log [] = refl
terms-merge [] (e ∷ es) = ap terms (take_all (e ∷ es))
terms-merge (x ∷ log) (e ∷ es) = elim (Bool-cases (nat_beq x.term e.term)) [
  | inl same ↦
      let is : x.term ≡ e.term = ground arith in
      rw same (rw is (ap (λ l. e.term ∷ l) (terms-merge log es)))
  | inr other ↦ rw other (ap terms (take_all (e ∷ es)))
]

terms-append : (xs ys : List Entry) → terms (xs ++ ys) ≡ terms xs ++ terms ys
terms-append [] ys = refl
terms-append (x ∷ xs) ys = ap (λ l. x.term ∷ l) (terms-append xs ys)

-- What follows a front of a log.
take_further : (m n : ℕ) (log : List Entry) → take (m + n) log ≡ take m log ++ take n (drop m log)
take_further zero n log = rw zero-add
take_further (suc m) n [] = rw (take_nil n, take_nil (suc m + n))
take_further (suc m) n (x ∷ log) =
    let step : suc m + n ≡ suc (m + n) = omega arith in
    rw step (ap (λ l. x ∷ l) (take_further m n log))

take_short : (n : ℕ) (log : List Entry) → take n log ≡ take (length (take n log)) log
take_short zero log = refl
take_short (suc n) [] = refl
take_short (suc n) (x ∷ log) = ap (λ l. x ∷ l) (take_short n log)

batch-is-take :
    (n : ℕ) (b : Bool) (log : List Entry)
    → take n (if b then log else []) ≡ take (length (take n (if b then log else []))) log
batch-is-take n true log = take_short n log
batch-is-take n false log = rw (take_nil n)

-- The new entries are those of the log from the index on.
new_entries-is-take :
    (next : ℕ) (log : List Entry)
    → new_entries next log ≡ take (length (new_entries next log)) (drop next log)
unfolding new_entries
new_entries-is-take next log =
    batch-is-take max_append_entries_batch (leb next (length log - 1)) (drop next log)

-- A follower whose log has the terms of the leader's up to the previous entry has them, once it has
-- taken the entries of a request, up to the last of these.
pub terms-merged :
    (prev : ℕ) (leader follower es : List Entry)
    → prev < length follower
    → terms (take (prev + 1) follower) ≡ terms (take (prev + 1) leader)
    → es ≡ take (length es) (drop (prev + 1) leader)
    → terms (take (prev + 1 + length es) (merged prev follower es))
      ≡ terms (take (prev + 1 + length es) leader)
unfolding merged
terms-merged prev leader follower es lt agree es_are =
    let front = take (prev + 1) follower in
    let back = merge (drop (prev + 1) follower) es in
    let at : length front ≡ prev + 1 = length-take_le (prev + 1) follower (omega arith) in
    let left = ap terms (
      take_further (prev + 1) (length es) (front ++ back)
      ∙ ap (λ l. l ++ take (length es) (drop (prev + 1) (front ++ back)))
          (take-append_left (prev + 1) front back at)
      ∙ ap (λ l. front ++ take (length es) l) (drop-append_left (prev + 1) front back at)) in
    let right = ap terms (
      take_further (prev + 1) (length es) leader
      ∙ ap (λ l. take (prev + 1) leader ++ l) (sym es_are)) in
    left
    ∙ terms-append front (take (length es) back)
    ∙ ap (λ l. l ++ terms (take (length es) back)) agree
    ∙ ap (λ l. terms (take (prev + 1) leader) ++ l) (terms-merge (drop (prev + 1) follower) es)
    ∙ sym (terms-append (take (prev + 1) leader) es)
    ∙ sym right

batch_length :
    (n : ℕ) (b : Bool) (log : List Entry) → length (take n (if b then log else [])) ≤ length log
batch_length n true log = omega (arith, length-take n log)
batch_length n false log = omega (arith, ap length (take_nil {A = Entry} n))

length-new_entries :
    (next : ℕ) (log : List Entry) → length (new_entries next log) ≤ length log - next
unfolding new_entries
length-new_entries next log = omega (
  arith,
  batch_length max_append_entries_batch (leb next (length log - 1)) (drop next log),
  length-drop next log,
)

-- No wrap on a uint64.
decrement_next : (x : ℕ) → x + 1 < 2 ^ 64 → decrement (max ((x + 1) % 2 ^ 64) 1) ≡ x
unfolding decrement
decrement_next x lt = ground arith

decrement_word : (x : ℕ) → 1 ≤ x → x < 2 ^ 64 → decrement x + 1 ≡ x
unfolding decrement
decrement_word x le lt = omega arith

module _ {M : Type 0} where
  -- What a request has of the leader.
  pub record Requested (c : ClusterMember) (req : AppendEntriesRequest) (s : Server M)
      : Type 0 where
    pub prev : Entry
    pub prev_is : get_elem? s.log req.prev_log_index ≡ some prev
    pub prev_term : req.prev_log_term ≡ prev.term
    pub index_is : req.prev_log_index ≡ decrement c.next_index
    pub entries_are : req.entries ≡ new_entries c.next_index s.log
    pub term_is : req.term ≡ s.current_term

  pub append_request-Requested :
      (i : ℕ) (c : ClusterMember) (req : AppendEntriesRequest) (s : Server M)
      → get_elem? s.cluster i ≡ some c
      → append_request i s ≡ some req
      → Requested c req s
  unfolding append_request
  append_request-Requested i c req s at_i e =
      let (prev, prev_is, e1) =
        >>=-eq-some (get_elem? s.log (decrement c.next_index)) _ (rw at_i at e) in
      let (own, own_is, e2) = >>=-eq-some (get_elem? s.cluster s.cluster_index) _ e1 in
      subst (λ r. Requested c r s) (some_inj e2)
        (record {
          prev = prev;
          prev_is = prev_is;
          prev_term = refl;
          index_is = refl;
          entries_are = refl;
          term_is = refl;
        })

  -- Where a request is made for a member with a next index, and its follower has the terms of
  -- the leader's log up to the previous entry, the match index that the leader notes when the
  -- request is accepted is the last index that was sent, is in its log, and is one up to which
  -- the merged log of the follower has the terms of the leader's.
  pub exchange-match_index :
      (i : ℕ) (c : ClusterMember) (req : AppendEntriesRequest) (s : Server M)
      (follower : List Entry)
      → append_request i s ≡ some req
      → get_elem? s.cluster i ≡ some c
      → 1 ≤ c.next_index
      → c.next_index < 2 ^ 64
      → length s.log < 2 ^ 64
      → req.prev_log_index < length follower
      → terms (take (req.prev_log_index + 1) follower) ≡ terms (take (req.prev_log_index + 1) s.log)
      → let m = (accepted_member req c).match_index in
        (m ≡ req.prev_log_index + length req.entries)
        × (m < length s.log)
        × (terms (take (m + 1) (merged req.prev_log_index follower req.entries))
            ≡ terms (take (m + 1) s.log))
  unfolding accepted_member
  exchange-match_index i c req s follower e at_i some_next next_word log_word lt agree =
      let asked = append_request-Requested i c req s at_i e in
      let prev = req.prev_log_index in
      let next : c.next_index ≡ prev + 1 =
        omega (arith, asked.index_is, decrement_word c.next_index some_next next_word) in
      let short = length-new_entries c.next_index s.log in
      let same_length = ap length asked.entries_are in
      let inside = get_elem?-lt s.log prev asked.prev_is in
      let m : (accepted_member req c).match_index ≡ prev + length req.entries =
        decrement_next (prev + length req.entries)
          (omega (arith, next, short, same_length, inside, log_word)) in
      let es_are : req.entries ≡ take (length req.entries) (drop (prev + 1) s.log) =
        subst (λ k. req.entries ≡ take (length req.entries) (drop k s.log)) next
          (subst (λ es. es ≡ take (length es) (drop c.next_index s.log)) (sym asked.entries_are)
            (new_entries-is-take c.next_index s.log)) in
      let bound : prev + length req.entries < length s.log =
        omega (arith, next, short, same_length, inside) in
      let upto : prev + 1 + length req.entries ≡ prev + length req.entries + 1 = omega arith in
      let agreed =
        subst (λ k. terms (take k (merged prev follower req.entries)) ≡ terms (take k s.log)) upto
          (terms-merged prev s.log follower req.entries lt agree es_are) in
      (
        m,
        subst (λ k. k < length s.log) (sym m) bound,
        subst
            (λ k.
              terms (take (k + 1) (merged prev follower req.entries)) ≡ terms (take (k + 1) s.log))
            (sym m) agreed,
      )
