-- ===== src/Kademlia/Table/Search.antt =====
-- What `FindClosest` and `FindSuccessor` find.
use mathlib.Core.List.{Mem, not-mem-nil}
use native.Mathlib.Decide.{ℕ_discrete}
use go_distributed_system.Base.{
  ℕ, zero, suc, ◌<◌, ◌≤◌, ◌≡◌, ◌⊎◌, inl, inr, refl, ◌∙◌, subst, false, Option, none, some, List, [],
  ◌∷◌, length, get_elem?, some_inj, take, length-take_le, Bool-cases, arith, ltb, nat_beq,
  if◌then◌else◌, if_true, if_false,
}
use go_distributed_system.Kademlia.Key.{
  KKey, kkey_bit_count, distance, not_before, KeyLt, not_before_lt, not_before_ge,
}
use go_distributed_system.Kademlia.Bucket.{const_k, Contact, KBucket}
use go_distributed_system.Kademlia.Table.{
  const_alpha, Node, contacts_at, gather, find_closest, first_not_before, find_successor,
}
use go_distributed_system.Kademlia.Table.Closest.{
  Stands, mem-take, gather_keeps, gather_reaches, gather-Stands,
}

module _ (index : ℕ) (bs : List KBucket) where
  -- All that is gathered, before it is cut to 20.
  unfoldable all_contacts : List Contact
  all_contacts =
      let closest = contacts_at index bs in
      if ltb (length closest) const_k then gather kkey_bit_count 1 index bs closest else closest

  all_stand : (c : Contact) → Mem c all_contacts → Stands index bs c
  unfolding all_contacts
  all_stand c m = elim (Bool-cases (ltb (length (contacts_at index bs)) const_k)) [
    | inl less ↦
        gather-Stands index bs kkey_bit_count 1 (contacts_at index bs) (λ x n. ∣ (index, n) ∣₁) c
          (subst (λ l. Mem c l) (if_true _ _ less) m)
    | inr enough ↦ ∣ (index, subst (λ l. Mem c l) (if_false _ _ enough) m) ∣₁
  ]

  all_reached :
      (j : ℕ) (c : Contact)
      → length all_contacts < const_alpha
      → index < kkey_bit_count
      → j < kkey_bit_count
      → Mem c (contacts_at j bs)
      → Mem c all_contacts
  unfolding all_contacts
  all_reached j c few inside lt m =
      elim (Bool-cases (ltb (length (contacts_at index bs)) const_k)) [
        | inl less ↦ elim (ℕ_discrete j index) [
          | yes e ↦ rw less (
              gather_keeps index bs kkey_bit_count 1 _ c
                (subst (λ i. Mem c (contacts_at i bs)) e m))
          | no ne ↦ rw less (
              gather_reaches index bs kkey_bit_count 1 j (contacts_at index bs) c
                (subst (λ (l : List Contact). length l < const_alpha)
                  (if_true (gather kkey_bit_count 1 index bs (contacts_at index bs)) _ less) few)
                (omega arith) lt inside (grind arith) m)
        ]
        | inr enough ↦
            let short =
              subst (λ (l : List Contact). length l < const_alpha)
                (if_false (gather kkey_bit_count 1 index bs (contacts_at index bs)) _ enough) few in
            absurd (ground arith)
      ]

cut : List Contact → List Contact
cut all = if ltb const_k (length all) then take const_k all else all

length-cut : (all : List Contact) → length (cut all) ≤ const_k
unfolding cut
length-cut all = elim (Bool-cases (ltb const_k (length all))) [
  | inl long ↦ rw long (omega (arith, length-take_le const_k all (ground arith)))
  | inr short ↦ rw short (ground arith)
]

cut_mem : (c : Contact) (all : List Contact) → Mem c (cut all) → Mem c all
unfolding cut
cut_mem c all m = elim (Bool-cases (ltb const_k (length all))) [
  | inl long ↦ mem-take c const_k all (subst (λ l. Mem c l) (if_true _ all long) m)
  | inr short ↦ subst (λ l. Mem c l) (if_false _ all short) m
]

cut_whole : (all : List Contact) → length (cut all) < const_alpha → cut all ≡ all
unfolding cut
cut_whole all few = elim (Bool-cases (ltb const_k (length all))) [
  | inl long ↦
      let short = subst (λ l. length l < const_alpha) (if_true _ all long) few in
      absurd (omega (arith, length-take_le const_k all (ground arith)))
  | inr short ↦ rw short
]

find_closest_lem :
    (target : KKey) (node : Node)
    → (find_closest target node ≡ [])
      ⊎ (find_closest target node
          ≡ cut (all_contacts (distance target node.key) node.routing_table.buckets))
unfolding find_closest cut all_contacts
find_closest_lem target node =
    elim (Bool-cases (nat_beq (distance target node.key) kkey_bit_count)) [
      | inl own ↦ inl (if_true [] _ own)
      | inr other ↦ inr (if_false [] _ other)
    ]

find_closest_inside :
    (target : KKey) (node : Node)
    → distance target node.key < kkey_bit_count
    → find_closest target node
      ≡ cut (all_contacts (distance target node.key) node.routing_table.buckets)
unfolding find_closest cut all_contacts
find_closest_inside target node lt =
    let inside : nat_beq (distance target node.key) kkey_bit_count ≡ false = ground arith in
    if_false [] _ inside

-- `FindClosest` returns at most 20 contacts, each of which stands in some bucket of the table.
pub find_closest_sound :
    (target : KKey) (node : Node)
    → (length (find_closest target node) ≤ const_k)
      × ((c : Contact)
          → Mem c (find_closest target node)
          → Stands (distance target node.key) node.routing_table.buckets c)
find_closest_sound target node = elim (find_closest_lem target node) [
  | inl e ↦ rw e (omega arith, λ c m. absurd (not-mem-nil m))
  | inr e ↦ rw e (length-cut _, λ c m. all_stand _ _ c (cut_mem c _ m))
]

-- When `FindClosest` returns fewer than 5 contacts for a key at a distance below 144, it returns
-- every contact of the table.
pub find_closest_complete :
    (target : KKey) (node : Node) (j : ℕ) (c : Contact)
    → distance target node.key < kkey_bit_count
    → length (find_closest target node) < const_alpha
    → j < kkey_bit_count
    → Mem c (contacts_at j node.routing_table.buckets)
    → Mem c (find_closest target node)
find_closest_complete target node j c inside few lt m =
    let e = find_closest_inside target node inside in
    let few' = subst (λ l. length l < const_alpha) e few in
    let whole = cut_whole _ few' in
    rw (e, whole) (all_reached _ _ j c (subst (λ l. length l < const_alpha) whole few') inside lt m)

-- Each of the first n contacts has a key below the given one.
abbrev pub AllBefore : ℕ → KKey → List Contact → Type 0
AllBefore n key closest =
    (j : ℕ) (x : Contact) → j < n → get_elem? closest j ≡ some x → KeyLt x.key key

-- What the search for a successor gives.
pub data Successor (key : KKey) (closest : List Contact) : Option Contact → Type 0 where
  first_at_or_after :
      (i : ℕ) (c : Contact)
      → get_elem? closest i ≡ some c
      → ¬ KeyLt c.key key
      → AllBefore i key closest
      → Successor key closest (some c)
  wrapped :
      (c : Contact)
      → get_elem? closest 0 ≡ some c
      → AllBefore (length closest) key closest
      → Successor key closest (some c)
  panics : closest ≡ [] → Successor key closest none

data FirstOf (key : KKey) (closest : List Contact) : Type 0 where
  found :
      (i : ℕ) (c : Contact)
      → first_not_before key closest ≡ some c
      → get_elem? closest i ≡ some c
      → ¬ KeyLt c.key key
      → AllBefore i key closest
      → FirstOf key closest
  missing :
      first_not_before key closest ≡ none
      → AllBefore (length closest) key closest
      → FirstOf key closest

AllBefore-cons :
    (n : ℕ) (key : KKey) (c : Contact) (rest : List Contact)
    → KeyLt c.key key
    → AllBefore n key rest
    → AllBefore (suc n) key (c ∷ rest)
AllBefore-cons n key c rest before all zero x lt at_j =
    subst (λ y. KeyLt y.key key) (some_inj at_j) before
AllBefore-cons n key c rest before all (suc j) x lt at_j = all j x (omega arith) at_j

first_not_before-FirstOf : (key : KKey) (closest : List Contact) → FirstOf key closest
unfolding first_not_before
first_not_before-FirstOf key [] = missing refl (λ j x lt _. absurd (omega arith))
first_not_before-FirstOf key (c ∷ rest) = elim (Bool-cases (not_before c.key key)) [
  | inl at ↦
      found 0 c (if_true (some c) _ at) refl (not_before_ge c.key key at)
        (λ j x lt _. absurd (omega arith))
  | inr before ↦ elim (first_not_before-FirstOf key rest) [
    | found i d e at_i at all ↦
        found (suc i) d (if_false (some c) _ before ∙ e) at_i at
          (AllBefore-cons i key c rest (not_before_lt c.key key before) all)
    | missing e all ↦
        missing (if_false (some c) _ before ∙ e)
          (AllBefore-cons (length rest) key c rest (not_before_lt c.key key before) all)
  ]
]

first_cases :
    (closest : List Contact) → (closest ≡ []) ⊎ ((c : Contact) × (get_elem? closest 0 ≡ some c))
first_cases [] = inl refl
first_cases (c ∷ rest) = inr (c, refl)

-- `FindSuccessor` returns the first of the contacts that `FindClosest` returns, in the order in
-- which it returns them, whose key is not below the given one as a number. Where each is below it,
-- it returns the contact at the head of that list, and it panics
-- where there are none.
pub find_successor-Successor :
    (key : KKey) (node : Node) → Successor key (find_closest key node) (find_successor key node)
unfolding find_successor
find_successor-Successor key node =
    let closest = find_closest key node in
    elim (first_not_before-FirstOf key closest) [
      | found i c e at_i at all ↦ rw (e, find_successor) (first_at_or_after i c at_i at all)
      | missing e all ↦ elim (first_cases closest) [
        | inl nothing ↦ rw (e, find_successor, nothing) (panics refl)
        | inr (c, at_0) ↦ rw (e, find_successor, at_0) (wrapped c at_0 all)
      ]
    ]
