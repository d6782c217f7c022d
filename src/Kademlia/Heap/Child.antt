-- ===== src/Kademlia/Heap/Child.antt =====
-- The child that the loop of `down` looks at.
use go_distributed_system.Base.{
  ℕ, ◌+◌, ◌*◌, ◌<◌, ◌≤◌, ◌≡◌, ◌⊎◌, inl, inr, ◌∙◌, Bool, true, false, some, List, length, get_elem?,
  get_elem?_in_range, ltb, Bool-cases, arith,
}
use go_distributed_system.Kademlia.Heap.{parent, child}
use go_distributed_system.Kademlia.Heap.Order.{Ranking}
use go_distributed_system.Kademlia.Heap.Up.{less_at_lem}

module _ {A : Type 0} {less : A → A → Bool} (rank : Ranking less) (h : List A) (k n : ℕ)
    (long : n ≤ length h) (room : 2 * k + 1 < n) where
  -- The child that `down` looks at is a child of k among the first n, and no other is less.
  pub record IsLesser (j : ℕ) : Type 0 where
    pub value : A
    pub found : get_elem? h j ≡ some value
    pub inside : j < n
    pub below : 0 < j
    pub up : parent j ≡ k
    pub lesser :
        (m : ℕ) (a : A)
        → 0 < m
        → m < n
        → parent m ≡ k
        → get_elem? h m ≡ some a
        → less a value ≡ false

  child_right :
      {x y : A}
      → 2 * k + 2 < n
      → get_elem? h (2 * k + 1) ≡ some x
      → get_elem? h (2 * k + 2) ≡ some y
      → less y x ≡ true
      → IsLesser (2 * k + 2)
  child_right {x} {y} more at_x at_y out = record {
    value = y;
    found = at_y;
    inside = more;
    below = omega arith;
    up = omega arith;
    lesser = λ m a p l e am.
        let which : (m ≡ 2 * k + 1) ⊎ (m ≡ 2 * k + 2) = grind arith in
        ground (arith, which, rank.asym y x, rank.asym y y);
  }

  child_left :
      {x : A}
      → get_elem? h (2 * k + 1) ≡ some x
      → ((y : A) → 2 * k + 2 < n → get_elem? h (2 * k + 2) ≡ some y → less y x ≡ false)
      → IsLesser (2 * k + 1)
  child_left {x} at_x other = record {
    value = x;
    found = at_x;
    inside = room;
    below = omega arith;
    up = omega arith;
    lesser = λ m a p l e am.
        let which : (m ≡ 2 * k + 1) ⊎ (m ≡ 2 * k + 2) = grind arith in
        ground (arith, which, other a, rank.asym x x);
  }

  pub child-IsLesser : IsLesser (child less h k n)
  unfolding child
  child-IsLesser =
      let (x, at_x) = get_elem?_in_range h (2 * k + 1) (omega arith) in
      elim (Bool-cases (ltb (2 * k + 2) n)) [
        | inl more ↦
            let (y, at_y) = get_elem?_in_range h (2 * k + 2) (ground arith) in
            let test = less_at_lem less h (2 * k + 2) (2 * k + 1) at_y at_x in
            elim (Bool-cases (less y x)) [
              | inl out ↦ rw (more, test ∙ out) (child_right (ground arith) at_x at_y out)
              | inr fits ↦ rw (more, test ∙ fits) (child_left at_x (λ b _ e. ground arith))
            ]
        | inr only ↦ rw only (child_left at_x (λ b lt _. absurd (ground arith)))
      ]
