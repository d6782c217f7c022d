-- ===== src/Kademlia/Heap/Order.antt =====
-- The order of a heap, the order with one element out of place, and how a swap with the parent
-- moves that place up, and a swap with the lesser child moves it down.
use native.Mathlib.Decide.{ℕ_discrete}
use go_distributed_system.Base.{
  ℕ, ◌<◌, ◌≡◌, ◌≢◌, ◌⊎◌, inl, inr, Bool, true, false, some, List, get_elem?, arith,
}
use go_distributed_system.Kademlia.Heap.{swap, parent}
use go_distributed_system.Kademlia.Heap.Swap.{
  get_elem?-swap_left, get_elem?-swap_right, get_elem?-swap_other,
}

-- `less a b`: a stands nearer to the root. It is a strict order with ties.
pub record Ranking {A : Type 0} (less : A → A → Bool) : Type 0 where
  pub asym : (a b : A) → less a b ≡ true → less b a ≡ false
  pub trans : (a b c : A) → less b a ≡ false → less c b ≡ false → less c a ≡ false

module _ {A : Type 0} (less : A → A → Bool) where
  -- No element of the first n is less than its parent.
  abbrev pub IsHeap : ℕ → List A → Type 0
  IsHeap n h =
      (m : ℕ) (a b : A)
      → 0 < m
      → m < n
      → get_elem? h m ≡ some a
      → get_elem? h (parent m) ≡ some b
      → less a b ≡ false

  -- The same but for the element at k and its children, and each child is not less than the parent
  -- of k.
  pub record Broken (k n : ℕ) (h : List A) : Type 0 where
    pub order :
        (m : ℕ) (a b : A)
        → 0 < m
        → m < n
        → m ≢ k
        → parent m ≢ k
        → get_elem? h m ≡ some a
        → get_elem? h (parent m) ≡ some b
        → less a b ≡ false
    pub skip :
        (m : ℕ) (a b : A)
        → 0 < m
        → m < n
        → parent m ≡ k
        → 0 < k
        → get_elem? h m ≡ some a
        → get_elem? h (parent k) ≡ some b
        → less a b ≡ false

  -- The children of k are not less than the element at k.
  abbrev pub FitsBelow : ℕ → ℕ → List A → Type 0
  FitsBelow k n h =
      (m : ℕ) (a b : A)
      → 0 < m
      → m < n
      → parent m ≡ k
      → get_elem? h m ≡ some a
      → get_elem? h k ≡ some b
      → less a b ≡ false

  -- The element at k is not less than its parent.
  abbrev pub FitsAbove : ℕ → List A → Type 0
  FitsAbove k h =
      (a b : A)
      → 0 < k
      → get_elem? h k ≡ some a
      → get_elem? h (parent k) ≡ some b
      → less a b ≡ false

  pub Broken-IsHeap :
      (k n : ℕ) (h : List A) → Broken k n h → FitsBelow k n h → FitsAbove k h → IsHeap n h
  Broken-IsHeap k n h broken below above m a b pos lt at_m at_p = elim (ℕ_discrete m k) [
    | yes e ↦ ground (arith, above a b)
    | no ne ↦ elim (ℕ_discrete (parent m) k) [
      | yes e ↦ ground (arith, below m a b)
      | no np ↦ broken.order m a b pos lt ne np at_m at_p
    ]
  ]

module _ {A : Type 0} (h : List A) (i j : ℕ) {a b : A} (ne : i ≢ j) (at_i : get_elem? h i ≡ some a)
    (at_j : get_elem? h j ≡ some b) where
  -- What stands at m after the elements at i and j are swapped.
  swap-cases :
      (m : ℕ)
      → ((m ≡ i) × (get_elem? (swap i j h) m ≡ some b))
        ⊎ ((m ≡ j) × (get_elem? (swap i j h) m ≡ some a))
        ⊎ ((m ≢ i) × (m ≢ j) × (get_elem? (swap i j h) m ≡ get_elem? h m))
  swap-cases m = elim (ℕ_discrete m i) [
    | yes e ↦ inl (e, rw e (get_elem?-swap_left h i j ne at_i at_j))
    | no ni ↦ elim (ℕ_discrete m j) [
      | yes e ↦ inr (inl (e, rw e (get_elem?-swap_right h i j at_i at_j)))
      | no nj ↦ inr (inr (ni, nj, get_elem?-swap_other h i j m at_i at_j ni nj))
    ]
  ]

module _ {A : Type 0} {less : A → A → Bool} (rank : Ranking less) (n : ℕ) (h : List A) where
  -- The element at k is less than its parent: they are swapped.
  module _ (k : ℕ) {x y : A} (pos : 0 < k) (lt : k < n) (at_k : get_elem? h k ≡ some x)
      (at_p : get_elem? h (parent k) ≡ some y) (out : less x y ≡ true) (broken : Broken less k n h)
      (below : FitsBelow less k n h) where
    pub up-Broken : Broken less (parent k) n (swap (parent k) k h)
    up-Broken = record {
      order = λ m a b p l nm np am ap. ground (
        arith,
        swap-cases h (parent k) k (omega arith) at_p at_k m,
        swap-cases h (parent k) k (omega arith) at_p at_k (parent m),
        broken.order m a b,
        broken.skip m a b,
      );
      skip = λ m a b p l e q am ap. ground (
        arith,
        swap-cases h (parent k) k (omega arith) at_p at_k m,
        swap-cases h (parent k) k (omega arith) at_p at_k (parent (parent k)),
        broken.order m a y,
        broken.order (parent k) y b,
        rank.trans b y a,
      );
    }

    pub up-FitsBelow : FitsBelow less (parent k) n (swap (parent k) k h)
    up-FitsBelow m a b p l e am ap = ground (
      arith,
      swap-cases h (parent k) k (omega arith) at_p at_k m,
      swap-cases h (parent k) k (omega arith) at_p at_k (parent k),
      broken.order m a y,
      rank.asym x y,
      rank.trans x y a,
    )

  -- The element at j, the lesser child of k, is less than the one at k: they are swapped.
  module _ (k j : ℕ) {x y : A} (lt : j < n) (pos : 0 < j) (up : parent j ≡ k)
      (at_j : get_elem? h j ≡ some x) (at_k : get_elem? h k ≡ some y) (out : less x y ≡ true)
      (lesser : (m : ℕ) (a : A)
        → 0 < m
        → m < n
        → parent m ≡ k
        → get_elem? h m ≡ some a
        → less a x ≡ false)
      (broken : Broken less k n h) where
    pub down-Broken : Broken less j n (swap k j h)
    down-Broken = record {
      order = λ m a b p l nm np am ap. ground (
        arith,
        swap-cases h k j (omega arith) at_k at_j m,
        swap-cases h k j (omega arith) at_k at_j (parent m),
        broken.order m a b,
        broken.skip m a b,
        broken.skip j a b,
        lesser m a,
      );
      skip = λ m a b p l e q am ap. ground (
        arith,
        swap-cases h k j (omega arith) at_k at_j m,
        swap-cases h k j (omega arith) at_k at_j (parent j),
        broken.order m a x,
      );
    }

    pub down-FitsAbove : FitsAbove less j (swap k j h)
    down-FitsAbove a b p aj ap = ground (
      arith,
      swap-cases h k j (omega arith) at_k at_j j,
      swap-cases h k j (omega arith) at_k at_j k,
      rank.asym x y,
    )
