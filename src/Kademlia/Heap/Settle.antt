-- ===== src/Kademlia/Heap/Settle.antt =====
-- What `settle` leaves alone, and a heap without its last place.
use mathlib.Core.List.{Perm, append-nil, perm_middle}
use mathlib.Core.List.Perm
use go_distributed_system.Base.{
  ℕ, zero, suc, ◌-◌, ◌<◌, ◌≤◌, ◌≡◌, inl, inr, refl, sym, ◌∙◌, ap, subst, Bool, some, List, [], ◌∷◌,
  ◌++◌, length, get_elem?, take, nat_beq, ltb, length-take_le, get_elem?-take, take-append-drop,
  drop_step, drop_all, Bool-cases, arith,
}
use go_distributed_system.Kademlia.Heap.{
  swap, parent, less_at, up_from, up, down_from, down, settle, drop_last,
}
use go_distributed_system.Kademlia.Heap.Swap.{get_elem?-swap_out}
use go_distributed_system.Kademlia.Heap.Order.{IsHeap}
use go_distributed_system.Kademlia.Heap.Up.{up_from-perm, length-up_from}
use go_distributed_system.Kademlia.Heap.Down.{down_from-Moves}

module _ {A : Type 0} (less : A → A → Bool) where
  up_from_outside :
      (fuel k m : ℕ) (h : List A) → k < m → get_elem? (up_from less fuel k h) m ≡ get_elem? h m
  unfolding up_from
  up_from_outside zero k m h lt = refl
  up_from_outside (suc fuel) k m h lt = elim (Bool-cases (nat_beq (parent k) k)) [
    | inl root ↦ rw root
    | inr inner ↦ elim (Bool-cases (less_at less h k (parent k))) [
      | inl out ↦
          rw (inner, out)
            (up_from_outside fuel (parent k) m (swap (parent k) k h) (omega arith)
              ∙ get_elem?-swap_out h (parent k) k m (λ e. omega arith) (λ e. omega arith))
      | inr fits ↦ rw (inner, fits)
    ]
  ]

  -- What `settle` leaves alone.
  pub record Settled (i n : ℕ) (h r : List A) : Type 0 where
    pub same_length : length r ≡ length h
    pub same_items : Perm r h
    pub outside : (m : ℕ) → n ≤ m → get_elem? r m ≡ get_elem? h m

  pub settle-Settled : (i n : ℕ) (h : List A) → i < n → Settled i n h (settle less i n h)
  unfolding settle down up
  settle-Settled i n h lt =
      let d = down_from-Moves less n n i h in
      let r = (down_from less n i n h).0 in
      elim (Bool-cases (ltb i (down_from less n i n h).1)) [
        | inl moved ↦
            rw moved (record {
              same_length = d.same_length;
              same_items = d.same_items;
              outside = d.outside;
            })
        | inr stayed ↦ rw stayed (record {
          same_length = length-up_from less (suc i) i r ∙ d.same_length;
          same_items = Perm.trans (up_from-perm less (suc i) i r) d.same_items;
          outside = λ m le. up_from_outside (suc i) i m r (omega arith) ∙ d.outside m le;
        })
      ]

module _ {A : Type 0} where
  -- A list is its last element and what `drop_last` leaves.
  pub drop_last-perm :
      (h : List A) (n : ℕ) {a : A}
      → length h ≡ suc n
      → get_elem? h n ≡ some a
      → Perm h (a ∷ drop_last h)
  unfolding drop_last
  drop_last-perm h n {a} long last =
      let cut : length h - 1 ≡ n = omega arith in
      let split : take n h ++ a ∷ [] ≡ h =
        ap (λ l. take n h ++ l)
          (sym (drop_step n h last ∙ ap (λ l. a ∷ l) (drop_all (suc n) h (omega arith))))
        ∙ take-append-drop n h in
      rw cut (
        subst (λ l. Perm l (a ∷ take n h)) split
          (Perm.trans (perm_middle (take n h) []) (Perm.cons a (rw append-nil (Perm.refl _)))))

  pub length-drop_last : (h : List A) → length (drop_last h) ≡ length h - 1
  unfolding drop_last
  length-drop_last h = length-take_le (length h - 1) h (omega arith)

  pub drop_last-IsHeap :
      (less : A → A → Bool) (h : List A) (n : ℕ)
      → length h ≡ suc n
      → IsHeap less n h
      → IsHeap less n (drop_last h)
  unfolding drop_last
  drop_last-IsHeap less h n long heap m a b pos lt at_m at_p =
      let cut : length h - 1 ≡ n = omega arith in
      heap m a b pos lt (sym (get_elem?-take (length h - 1) h m (omega arith)) ∙ at_m)
        (sym (get_elem?-take (length h - 1) h (parent m) (omega arith)) ∙ at_p)
