-- ===== src/Kademlia/Heap/Swap.antt =====
-- The swap of two elements: what it puts where, and that it is a permutation.
use mathlib.Core.List.{Perm}
use mathlib.Core.List.Perm
use native.Mathlib.Decide.{ℕ_discrete}
use go_distributed_system.Base.{
  ℕ, zero, suc, ◌≡◌, ◌≢◌, ◌∙◌, ap, some, List, [], ◌∷◌, length, get_elem?, set, length-set,
  get_elem?-set_self, get_elem?-set_ne, Option-cases, inl, inr, arith, get_elem?-lt, some_inj,
}
use go_distributed_system.Kademlia.Heap.{swap}

module _ {A : Type 0} where
  pub swap_eq :
      (h : List A) (i j : ℕ) {a b : A}
      → get_elem? h i ≡ some a
      → get_elem? h j ≡ some b
      → swap i j h ≡ set (set h i b) j a
  unfolding swap
  swap_eq h i j p q = rw (p, q, swap)

  pub length-swap : (i j : ℕ) (h : List A) → length (swap i j h) ≡ length h
  unfolding swap
  length-swap i j h = elim (Option-cases (get_elem? h i)) [
    | inl p ↦ rw (p, swap)
    | inr (a, p) ↦ elim (Option-cases (get_elem? h j)) [
      | inl q ↦ rw (p, q, swap)
      | inr (b, q) ↦ rw (p, q, swap) (length-set (set h i b) j a ∙ length-set h i b)
    ]
  ]

  -- Where everything stands after a swap.
  pub get_elem?-swap_left :
      (h : List A) (i j : ℕ) {a b : A}
      → i ≢ j
      → get_elem? h i ≡ some a
      → get_elem? h j ≡ some b
      → get_elem? (swap i j h) i ≡ some b
  get_elem?-swap_left h i j {a} {b} ne p q =
      ap (λ l. get_elem? l i) (swap_eq h i j p q)
      ∙ get_elem?-set_ne (set h i b) j i a ne
      ∙ get_elem?-set_self h i b (get_elem?-lt h i p)

  pub get_elem?-swap_right :
      (h : List A) (i j : ℕ) {a b : A}
      → get_elem? h i ≡ some a
      → get_elem? h j ≡ some b
      → get_elem? (swap i j h) j ≡ some a
  get_elem?-swap_right h i j {a} {b} p q =
      ap (λ l. get_elem? l j) (swap_eq h i j p q)
      ∙ get_elem?-set_self (set h i b) j a (omega (arith, length-set h i b, get_elem?-lt h j q))

  pub get_elem?-swap_other :
      (h : List A) (i j k : ℕ) {a b : A}
      → get_elem? h i ≡ some a
      → get_elem? h j ≡ some b
      → k ≢ i
      → k ≢ j
      → get_elem? (swap i j h) k ≡ get_elem? h k
  get_elem?-swap_other h i j k {a} {b} p q ni nj =
      ap (λ l. get_elem? l k) (swap_eq h i j p q)
      ∙ get_elem?-set_ne (set h i b) j k a nj
      ∙ get_elem?-set_ne h i k b ni

  -- Writing v over a takes a out and puts v in.
  pub set-perm :
      (h : List A) (i : ℕ) (v : A) {a : A} → get_elem? h i ≡ some a → Perm (v ∷ h) (a ∷ set h i v)
  set-perm [] i v p = ground arith
  set-perm (x ∷ h) zero v {a} p = rw (some_inj p) (Perm.swap a v h)
  set-perm (x ∷ h) (suc i) v {a} p =
      Perm.trans (Perm.swap x v h)
        (Perm.trans (Perm.cons x (set-perm h i v p)) (Perm.swap a x (set h i v)))

  second_there :
      (h : List A) (i j : ℕ) {a b : A}
      → get_elem? h i ≡ some a
      → get_elem? h j ≡ some b
      → get_elem? (set h i b) j ≡ some b
  second_there h i j {b = b} p q = elim (ℕ_discrete j i) [
    | yes e ↦ rw e (get_elem?-set_self h i b (get_elem?-lt h i p))
    | no ne ↦ get_elem?-set_ne h i j b ne ∙ q
  ]

  pub swap-perm : (i j : ℕ) (h : List A) → Perm (swap i j h) h
  unfolding swap
  swap-perm i j h = elim (Option-cases (get_elem? h i)) [
    | inl p ↦ rw (p, swap) (Perm.refl h)
    | inr (a, p) ↦ elim (Option-cases (get_elem? h j)) [
      | inl q ↦ rw (p, q, swap) (Perm.refl h)
      | inr (b, q) ↦
          rw (p, q, swap)
            (Perm.symm (
              Perm.cons_inv {a = b} (
                Perm.trans (set-perm h i b p) (set-perm (set h i b) j a (second_there h i j p q)))))
    ]
  ]

  -- The same for any two places, in range or not.
  pub get_elem?-swap_out :
      (h : List A) (i j k : ℕ) → k ≢ i → k ≢ j → get_elem? (swap i j h) k ≡ get_elem? h k
  unfolding swap
  get_elem?-swap_out h i j k ni nj = elim (Option-cases (get_elem? h i)) [
    | inl p ↦ rw (p, swap)
    | inr (a, p) ↦ elim (Option-cases (get_elem? h j)) [
      | inl q ↦ rw (p, q, swap)
      | inr (b, q) ↦ get_elem?-swap_other h i j k p q ni nj
    ]
  ]
