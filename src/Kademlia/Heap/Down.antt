-- ===== src/Kademlia/Heap/Down.antt =====
-- The loop of `down` puts the element that is out of place where it belongs, and `settle` does so
-- in either direction.
use mathlib.Core.List.{Perm}
use mathlib.Core.List.Perm
use go_distributed_system.Base.{
  ℕ, zero, suc, ◌+◌, ◌*◌, ◌<◌, ◌≤◌, ◌≡◌, ◌⊎◌, inl, inr, refl, ◌∙◌, Bool, true, false, List, length,
  get_elem?, get_elem?_in_range, leb, ltb, Bool-cases, arith, lt→ltb,
}
use go_distributed_system.Kademlia.Heap.{swap, less_at, up, child, down_from, down, settle}
use go_distributed_system.Kademlia.Heap.Swap.{length-swap, swap-perm, get_elem?-swap_out}
use go_distributed_system.Kademlia.Heap.Order.{
  Ranking, IsHeap, Broken, FitsBelow, FitsAbove, Broken-IsHeap, down-Broken, down-FitsAbove,
}
use go_distributed_system.Kademlia.Heap.Up.{less_at_lem, up_from-IsHeap}
use go_distributed_system.Kademlia.Heap.Child.{child-IsLesser}

module _ {A : Type 0} (less : A → A → Bool) (n : ℕ) where
  -- Only the first n elements move, and only among themselves.
  pub record Moves (h : List A) (r : List A × ℕ) (k : ℕ) : Type 0 where
    pub same_length : length r.0 ≡ length h
    pub same_items : Perm r.0 h
    pub outside : (m : ℕ) → n ≤ m → get_elem? r.0 m ≡ get_elem? h m
    pub grows : k ≤ r.1

  Moves-self : (h : List A) (k : ℕ) → Moves h (h, k) k
  Moves-self h k = record {
    same_length = refl;
    same_items = Perm.refl h;
    outside = λ m le. refl;
    grows = omega arith;
  }

  pub down_from-Moves : (fuel k : ℕ) (h : List A) → Moves h (down_from less fuel k n h) k
  unfolding down_from child
  down_from-Moves zero k h = Moves-self h k
  down_from-Moves (suc fuel) k h = elim (Bool-cases (leb n (2 * k + 1))) [
    | inl leaf ↦ rw leaf (Moves-self h k)
    | inr room ↦
        let j = child less h k n in
        let bounds : (k < j) × (j < n) = ground arith in
        elim (Bool-cases (less_at less h j k)) [
          | inr fits ↦ rw (room, fits) (Moves-self h k)
          | inl out ↦
              let rest = down_from-Moves fuel j (swap k j h) in
              rw (room, out)
                (record {
                  same_length = rest.same_length ∙ length-swap k j h;
                  same_items = Perm.trans rest.same_items (swap-perm k j h);
                  outside = λ m le.
                      rest.outside m le
                      ∙ get_elem?-swap_out h k j m (λ e. omega arith) (λ e. omega arith);
                  grows = omega (arith, rest.grows);
                })
        ]
  ]

module _ {A : Type 0} {less : A → A → Bool} (rank : Ranking less) (n : ℕ) where
  leaf_fits : (k : ℕ) (h : List A) → n ≤ 2 * k + 1 → FitsBelow less k n h
  leaf_fits k h leaf m a b p l e _ _ = absurd (omega arith)

  -- One round of the loop: the element stays and fits, or it moves to the lesser child.
  data Round (k : ℕ) (h : List A) : Type 0 where
    stays :
        (leb n (2 * k + 1) ≡ true)
          ⊎ ((leb n (2 * k + 1) ≡ false) × (less_at less h (child less h k n) k ≡ false))
        → FitsBelow less k n h
        → Round k h
    sinks :
        leb n (2 * k + 1) ≡ false
        → less_at less h (child less h k n) k ≡ true
        → k < child less h k n
        → child less h k n < n
        → Broken less (child less h k n) n (swap k (child less h k n) h)
        → FitsAbove less (child less h k n) (swap k (child less h k n) h)
        → Round k h

  Round-of : (k : ℕ) (h : List A) → k < n → n ≤ length h → Broken less k n h → Round k h
  Round-of k h lt long broken = elim (Bool-cases (leb n (2 * k + 1))) [
    | inl leaf ↦ stays (inl leaf) (leaf_fits k h (ground arith))
    | inr room ↦
        let c = child-IsLesser rank h k n long (ground arith) in
        let (y, at_k) = get_elem?_in_range h k (omega arith) in
        let test = less_at_lem less h (child less h k n) k c.found at_k in
        elim (Bool-cases (less c.value y)) [
          | inl out ↦
              sinks room (test ∙ out) (omega (arith, c.up, c.below)) c.inside
                (down-Broken rank n h k (child less h k n) c.inside c.below c.up c.found at_k out
                  c.lesser broken)
                (down-FitsAbove rank n h k (child less h k n) c.inside c.below c.up c.found at_k out
                  c.lesser broken)
          | inr fits ↦
              stays (inr (room, test ∙ fits))
                (λ m a b p l e am bk. ground (arith, c.lesser m a, rank.trans y c.value a))
        ]
  ]

  pub down_from-IsHeap :
      (fuel k : ℕ) (h : List A)
      → n ≤ fuel + k
      → k < n
      → n ≤ length h
      → Broken less k n h
      → FitsAbove less k h
      → IsHeap less n (down_from less fuel k n h).0
  unfolding down_from
  down_from-IsHeap zero k h enough lt long broken above = absurd (omega arith)
  down_from-IsHeap (suc fuel) k h enough lt long broken above =
      go (Round-of k h lt long broken) (λ j up down b a.
        down_from-IsHeap fuel j (swap k j h) (omega arith) down (omega (arith, length-swap k j h)) b
          a)
    where
      go :
          Round k h
          → ((j : ℕ)
              → k < j
              → j < n
              → Broken less j n (swap k j h)
              → FitsAbove less j (swap k j h)
              → IsHeap less n (down_from less fuel j n (swap k j h)).0)
          → IsHeap less n (down_from less (suc fuel) k n h).0
      go (stays (inl leaf) below) rec = rw leaf (Broken-IsHeap less k n h broken below above)
      go (stays (inr (room, fits)) below) rec =
          rw (room, fits) (Broken-IsHeap less k n h broken below above)
      go (sinks room out up inside b a) rec = rw (room, out) (rec _ up inside b a)

  -- `down` mends the heap where it moves the element; where it does not, the element fits below.
  data Downed (i : ℕ) (h : List A) (r : List A × ℕ) : Type 0 where
    moved : ltb i r.1 ≡ true → n ≤ length r.0 → IsHeap less n r.0 → Downed i h r
    stayed : r.0 ≡ h → r.1 ≡ i → FitsBelow less i n h → Downed i h r

  down_from-Downed :
      (fuel i : ℕ) (h : List A)
      → n ≤ fuel + i
      → i < n
      → n ≤ length h
      → Broken less i n h
      → Downed i h (down_from less fuel i n h)
  unfolding down_from
  down_from-Downed zero i h enough lt long broken = absurd (omega arith)
  down_from-Downed (suc fuel) i h enough lt long broken = go (Round-of i h lt long broken)
    where
      go : Round i h → Downed i h (down_from less (suc fuel) i n h)
      go (stays (inl leaf) below) = rw leaf (stayed refl refl below)
      go (stays (inr (room, fits)) below) = rw (room, fits) (stayed refl refl below)
      go (sinks room out up inside b a) =
          let j = child less h i n in
          let h' = swap i j h in
          let long' : n ≤ length h' = omega (arith, length-swap i j h) in
          let m = down_from-Moves less n fuel j h' in
          rw (room, out)
            (moved (lt→ltb i _ (omega (arith, m.grows))) (omega (arith, m.same_length))
              (down_from-IsHeap fuel j h' (omega arith) inside long' b a))

  settle_moved :
      (i : ℕ) (h : List A)
      → ltb i (down_from less n i n h).1 ≡ true
      → settle less i n h ≡ (down_from less n i n h).0
  unfolding settle down
  settle_moved i h e = rw e

  settle_stayed :
      (i : ℕ) (h : List A)
      → (down_from less n i n h).0 ≡ h
      → (down_from less n i n h).1 ≡ i
      → settle less i n h ≡ up less i h
  unfolding settle down
  settle_stayed i h e e' =
      let no_move : ltb i (down_from less n i n h).1 ≡ false = ground (arith, e') in rw (no_move, e)

  -- `settle` mends a heap with one element out of place.
  pub settle-IsHeap :
      (i : ℕ) (h : List A)
      → i < n
      → n ≤ length h
      → Broken less i n h
      → IsHeap less n (settle less i n h)
  settle-IsHeap i h lt long broken = go (down_from-Downed n i h (omega arith) lt long broken)
    where
      go : Downed i h (down_from less n i n h) → IsHeap less n (settle less i n h)
      go (moved e _ heap) = rw (settle_moved i h e) heap
      go (stayed e e' below) =
          rw (settle_stayed i h e e')
            (unfold up in up_from-IsHeap rank (suc i) i n h (omega arith) lt long broken below)
