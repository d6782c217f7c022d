-- ===== src/Kademlia/Bucket/Order.antt =====
-- `Less` ranks the contacts, and where the loop over a bucket finds a key.
use mathlib.Core.HLevel.{⊥_prop}
use mathlib.Core.Logic.Or
use mathlib.Core.List.{Mem, not-mem-nil, eq-or-mem_of_mem-cons}
use go_distributed_system.Base.{
  ℕ, suc, ◌≡◌, inl, inr, refl, sym, ℤ, true, false, none, some, List, [], ◌∷◌, get_elem?, map,
  ltb_ℤ, int_beq, ◌==◌, Bool-cases, arith, if◌then◌else◌,
}
use go_distributed_system.Kademlia.Key.{KKey, key_eq, key_beq_iff}
use go_distributed_system.Kademlia.Bucket.{Contact, less, find_key}
use go_distributed_system.Kademlia.Heap.Order.{Ranking}

-- The order of Less on what it compares.
lex_asym :
    (s r t q : ℤ)
    → (if int_beq s t then ltb_ℤ r q else ltb_ℤ t s) ≡ true
    → (if int_beq t s then ltb_ℤ q r else ltb_ℤ s t) ≡ false
lex_asym s r t q h = ground arith

lex_trans :
    (s r t q u p : ℤ)
    → (if int_beq t s then ltb_ℤ q r else ltb_ℤ s t) ≡ false
    → (if int_beq u t then ltb_ℤ p q else ltb_ℤ t u) ≡ false
    → (if int_beq u s then ltb_ℤ p r else ltb_ℤ s u) ≡ false
lex_trans s r t q u p h h' = ground arith

pub less-Ranking : Ranking less
unfolding less
less-Ranking = record {
  asym = λ a b h. lex_asym a.start_time a.rtt b.start_time b.rtt h;
  trans = λ a b c h h'. lex_trans a.start_time a.rtt b.start_time b.rtt c.start_time c.rtt h h';
}

abbrev pub key_of : Contact → KKey
key_of c = c.key

-- Where the key stands, or that it stands nowhere.
pub data Found (k : KKey) (h : List Contact) : Type 0 where
  nowhere : find_key k h ≡ none → ¬ Mem k (map key_of h) → Found k h
  at_index :
      (i : ℕ) (a : Contact) → find_key k h ≡ some i → get_elem? h i ≡ some a → a.key ≡ k → Found k h

pub find_key-Found : (k : KKey) (h : List Contact) → Found k h
unfolding find_key
find_key-Found k [] = nowhere refl not-mem-nil
find_key-Found k (c ∷ h) = elim (Bool-cases (c.key == k)) [
  | inl same ↦ at_index 0 c (rw same) refl ((key_beq_iff c.key k).0 same)
  | inr differ ↦ elim (find_key-Found k h) [
    | nowhere e free ↦ nowhere (rw (differ, e)) (λ m.
        Or.elim ⊥_prop (eq-or-mem_of_mem-cons m) (λ e'. cc ((key_beq_iff c.key k).1 (sym e'))) free)
    | at_index i a e found own ↦ at_index (suc i) a (rw (differ, e)) found own
  ]
]
