-- ===== src/Kademlia/Heap/Up.antt =====
-- The loop of `up` puts the element that is out of place where it belongs.
use mathlib.Core.List.{Perm}
use mathlib.Core.List.Perm
use go_distributed_system.Base.{
  ℕ, zero, suc, ◌<◌, ◌≤◌, ◌≡◌, inl, inr, refl, ◌∙◌, Bool, some, List, length, get_elem?,
  get_elem?_in_range, nat_beq, Bool-cases, arith,
}
use go_distributed_system.Kademlia.Heap.{swap, parent, less_at, up_from}
use go_distributed_system.Kademlia.Heap.Swap.{length-swap, swap-perm}
use go_distributed_system.Kademlia.Heap.Order.{
  Ranking, IsHeap, Broken, FitsBelow, Broken-IsHeap, up-Broken, up-FitsBelow,
}

module _ {A : Type 0} (less : A → A → Bool) where
  pub less_at_lem :
      (h : List A) (i j : ℕ) {a b : A}
      → get_elem? h i ≡ some a
      → get_elem? h j ≡ some b
      → less_at less h i j ≡ less a b
  unfolding less_at
  less_at_lem h i j p q = rw (p, q, less_at)

  -- A test of two places that passes has elements in both.
  pub length-up_from : (fuel k : ℕ) (h : List A) → length (up_from less fuel k h) ≡ length h
  unfolding up_from
  length-up_from zero k h = refl
  length-up_from (suc fuel) k h = elim (Bool-cases (nat_beq (parent k) k)) [
    | inl root ↦ rw root
    | inr inner ↦ elim (Bool-cases (less_at less h k (parent k))) [
      | inl out ↦
          rw (inner, out)
            (length-up_from fuel (parent k) (swap (parent k) k h) ∙ length-swap (parent k) k h)
      | inr fits ↦ rw (inner, fits)
    ]
  ]

  pub up_from-perm : (fuel k : ℕ) (h : List A) → Perm (up_from less fuel k h) h
  unfolding up_from
  up_from-perm zero k h = Perm.refl h
  up_from-perm (suc fuel) k h = elim (Bool-cases (nat_beq (parent k) k)) [
    | inl root ↦ rw root (Perm.refl h)
    | inr inner ↦ elim (Bool-cases (less_at less h k (parent k))) [
      | inl out ↦
          rw (inner, out)
            (Perm.trans (up_from-perm fuel (parent k) (swap (parent k) k h))
              (swap-perm (parent k) k h))
      | inr fits ↦ rw (inner, fits) (Perm.refl h)
    ]
  ]

module _ {A : Type 0} {less : A → A → Bool} (rank : Ranking less) where
  pub up_from-IsHeap :
      (fuel k n : ℕ) (h : List A)
      → k < fuel
      → k < n
      → n ≤ length h
      → Broken less k n h
      → FitsBelow less k n h
      → IsHeap less n (up_from less fuel k h)
  unfolding up_from
  up_from-IsHeap zero k n h enough lt long broken below = elim enough [ ]
  up_from-IsHeap (suc fuel) k n h enough lt long broken below =
      elim (Bool-cases (nat_beq (parent k) k)) [
        | inl root ↦
            rw root (Broken-IsHeap less k n h broken below (λ a b pos _ _. absurd (ground arith)))
        | inr inner ↦
            let pos : 0 < k = ground arith in
            let (x, at_k) = get_elem?_in_range h k (omega arith) in
            let (y, at_p) = get_elem?_in_range h (parent k) (omega arith) in
            let test = less_at_lem less h k (parent k) at_k at_p in
            elim (Bool-cases (less x y)) [
              | inl out ↦
                  rw (inner, test ∙ out)
                    (up_from-IsHeap fuel (parent k) n (swap (parent k) k h) (omega arith)
                      (omega arith) (omega (arith, length-swap (parent k) k h))
                      (up-Broken rank n h k pos lt at_k at_p out broken below)
                      (up-FitsBelow rank n h k pos lt at_k at_p out broken below))
              | inr fits ↦
                  rw (inner, test ∙ fits)
                    (Broken-IsHeap less k n h broken below (λ a b _ ea eb. ground arith))
            ]
      ]
