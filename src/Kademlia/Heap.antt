-- ===== src/Kademlia/Heap.antt =====
-- What kademlia/routing.go uses of Go's container/heap, over a list and a test `less`: the root is an
-- element that no other is less than. An index is in range wherever the functions are called.
pub mod Swap
pub mod Order
pub mod Up
pub mod Child
pub mod Down
pub mod Settle
pub mod Operations
use go_distributed_system.Base.{
  ℕ, zero, suc, ◌+◌, ◌-◌, ◌*◌, ◌/◌, Bool, true, false, not, ◌&&◌, ◌||◌, Option, none, some, List,
  [], ◌∷◌, ◌++◌, length, get_elem?, set, take, leb, ltb, nat_beq, if◌then◌else◌,
}

module _ {A : Type 0} where
  -- `h[i], h[j] = h[j], h[i]`
  unfoldable pub swap : ℕ → ℕ → List A → List A
  swap i j h = elim (get_elem? h i) [
    | none ↦ h
    | some a ↦ elim (get_elem? h j) [ none ↦ h | some b ↦ set (set h i b) j a ]
  ]

  -- `old[:n-1]` and the item `old[n-1]`.
  unfoldable pub drop_last : List A → List A
  drop_last h = take (length h - 1) h

-- The parent of a node; that of the root is the root.
abbrev pub parent : ℕ → ℕ
parent j = (j - 1) / 2

module _ {A : Type 0} (less : A → A → Bool) where
  -- `h.Less(i, j)`
  unfoldable pub less_at : List A → ℕ → ℕ → Bool
  less_at h i j = elim (get_elem? h i) [
    | none ↦ false
    | some a ↦ elim (get_elem? h j) [ none ↦ false | some b ↦ less a b ]
  ]

  -- The loop of `up`; each round goes to a smaller index, so `suc j` rounds are enough.
  unfoldable pub up_from : ℕ → ℕ → List A → List A
  up_from zero j h = h
  up_from (suc fuel) j h =
      let rest = up_from fuel (parent j) (swap (parent j) j h) in
      if nat_beq (parent j) j || not (less_at h j (parent j)) then h else rest

  unfoldable pub up : ℕ → List A → List A
  unfolding up_from
  up j h = up_from (suc j) j h

  -- The child of i that `down` looks at.
  unfoldable pub child : List A → ℕ → ℕ → ℕ
  child h i n =
      if ltb (2 * i + 2) n && less_at h (2 * i + 2) (2 * i + 1) then 2 * i + 2 else 2 * i + 1

  -- The loop of `down` over the first n elements, with the index at which it ends; each round goes
  -- to a larger index below n, so n rounds are enough.
  unfoldable pub down_from : ℕ → ℕ → ℕ → List A → List A × ℕ
  down_from zero i n h = (h, i)
  down_from (suc fuel) i n h =
      let j = child h i n in
      let rest = down_from fuel j n (swap i j h) in
      if leb n (2 * i + 1) then (h, i) else if not (less_at h j i) then (h, i) else rest

  -- The second result tells whether the element moved.
  unfoldable pub down : ℕ → ℕ → List A → List A × Bool
  unfolding down_from child
  down i n h = let r = down_from n i n h in (r.0, ltb i r.1)

  unfoldable pub push : A → List A → List A
  push x h = up (length h) (h ++ x ∷ [])

  unfoldable pub pop : List A → List A
  pop h = let n = length h - 1 in drop_last (down 0 n (swap 0 n h)).0

  -- `down`, and `up` where that did not move the element.
  unfoldable pub settle : ℕ → ℕ → List A → List A
  settle i n h = let r = down i n h in if r.1 then r.0 else up i r.0

  unfoldable pub remove : ℕ → List A → List A
  remove i h =
      let n = length h - 1 in drop_last (if nat_beq n i then h else settle i n (swap i n h))

  unfoldable pub fix : ℕ → List A → List A
  fix i h = settle i (length h) h
