-- ===== src/Kademlia/Table/Closest.antt =====
-- What the loop of `FindClosest` over the neighbouring buckets gathers.
use mathlib.Core.List.{Mem, append-nil, mem-append, mem-append_left, mem-append_right, not-mem-nil}
use mathlib.Core.Logic.Or
use mathlib.Core.Logic.{∥∥₁_prop}
use go_distributed_system.Base.{
  ℕ, zero, suc, ◌+◌, ◌-◌, ◌<◌, ◌≤◌, ◌≡◌, ◌⊎◌, inl, inr, refl, sym, ◌∙◌, ap, subst, Bool, true,
  false, ◌&&◌, List, [], ◌++◌, length, take, length-append, take-append-drop, drop, Bool-cases,
  arith, leb, ltb, if◌then◌else◌, if_true, if_false,
}
use go_distributed_system.Kademlia.Key.{kkey_bit_count}
use go_distributed_system.Kademlia.Bucket.{Contact, KBucket}
use go_distributed_system.Kademlia.Table.{const_alpha, contacts_at, beside, gather}

-- What is appended under a test.
append_if :
    {A : Type 0} (b : Bool) (xs ys : List A)
    → (if b then xs ++ ys else xs) ≡ xs ++ (if b then ys else [])
append_if true xs ys = refl
append_if false xs ys = sym (append-nil xs)

mem_if : (c : Contact) (b : Bool) (ys : List Contact) → Mem c (if b then ys else []) → Mem c ys
mem_if c true ys m = m
mem_if c false ys m = absurd (not-mem-nil m)

pub mem-take : (c : Contact) (n : ℕ) (xs : List Contact) → Mem c (take n xs) → Mem c xs
mem-take c n xs m = subst (λ l. Mem c l) (take-append-drop n xs) (mem-append_left (drop n xs) m)

module _ (index : ℕ) (bs : List KBucket) where
  -- The lists of both neighbours are added behind what was gathered before.
  data Beside (i : ℕ) (closest next : List Contact) : Type 0 where
    beside_of :
        (lower upper : List Contact)
        → next ≡ (closest ++ lower) ++ upper
        → (i ≤ index → lower ≡ contacts_at (index - i) bs)
        → (index + i < kkey_bit_count → upper ≡ contacts_at (index + i) bs)
        → ((c : Contact) → Mem c lower → Mem c (contacts_at (index - i) bs))
        → ((c : Contact) → Mem c upper → Mem c (contacts_at (index + i) bs))
        → Beside i closest next

  beside-Beside : (i : ℕ) (closest : List Contact) → Beside i closest (beside index i bs closest)
  unfolding beside
  beside-Beside i closest =
      beside_of (if leb i index then contacts_at (index - i) bs else [])
        (if ltb (index + i) kkey_bit_count then contacts_at (index + i) bs else [])
        (append_if (ltb (index + i) kkey_bit_count) _ (contacts_at (index + i) bs)
          ∙ ap
              (λ l.
                l ++ (if ltb (index + i) kkey_bit_count then contacts_at (index + i) bs else []))
              (append_if (leb i index) closest (contacts_at (index - i) bs)))
        (λ le. if_true {b = leb i index} _ [] (ground arith))
        (λ lt. if_true {b = ltb (index + i) kkey_bit_count} _ [] (ground arith))
        (λ c. mem_if c (leb i index) (contacts_at (index - i) bs))
        (λ c. mem_if c (ltb (index + i) kkey_bit_count) (contacts_at (index + i) bs))

  length-beside :
      (i : ℕ) (closest : List Contact) → length closest ≤ length (beside index i bs closest)
  length-beside i closest = elim (beside-Beside i closest) [
    | beside_of lower upper e _ _ _ _ ↦
        rw e (omega (arith, length-append closest lower, length-append (closest ++ lower) upper))
  ]

  pub length-gather :
      (fuel i : ℕ) (closest : List Contact)
      → length closest ≤ length (gather fuel i index bs closest)
  unfolding gather
  length-gather zero i closest = omega arith
  length-gather (suc fuel) i closest =
      elim (Bool-cases (ltb i kkey_bit_count && ltb (length closest) const_alpha)) [
        | inl more ↦ rw more (
            omega (
              arith,
              length-beside i closest,
              length-gather fuel (suc i) (beside index i bs closest),
            ))
        | inr over ↦ rw over (omega arith)
      ]

  beside_keeps :
      (i : ℕ) (closest : List Contact) (c : Contact)
      → Mem c closest
      → Mem c (beside index i bs closest)
  beside_keeps i closest c m = elim (beside-Beside i closest) [
    | beside_of lower upper e _ _ _ _ ↦ rw e (mem-append_left upper (mem-append_left lower m))
  ]

  pub gather_keeps :
      (fuel i : ℕ) (closest : List Contact) (c : Contact)
      → Mem c closest
      → Mem c (gather fuel i index bs closest)
  unfolding gather
  gather_keeps zero i closest c m = m
  gather_keeps (suc fuel) i closest c m =
      elim (Bool-cases (ltb i kkey_bit_count && ltb (length closest) const_alpha)) [
        | inl more ↦ rw more (gather_keeps fuel (suc i) _ c (beside_keeps i closest c m))
        | inr over ↦ rw over m
      ]

  -- Both neighbours at the same distance of the index.
  beside_reaches :
      (i j : ℕ) (closest : List Contact) (c : Contact)
      → j < kkey_bit_count
      → (j + i ≡ index) ⊎ (j ≡ index + i)
      → Mem c (contacts_at j bs)
      → Mem c (beside index i bs closest)
  beside_reaches i j closest c lt which m = elim (beside-Beside i closest) [
    | beside_of lower upper e below above _ _ ↦ elim which [
      | inl at ↦
          let same : index - i ≡ j = omega arith in
          rw (e, below (omega arith), same) (mem-append_left upper (mem-append_right closest m))
      | inr at ↦ rw (e, above (omega arith), sym at) (mem-append_right (closest ++ lower) m)
    ]
  ]

  -- The round at hand reaches the bucket, or a later one does.
  round_cases :
      (i j : ℕ)
      → (j + i ≤ index) ⊎ (index + i ≤ j)
      → ((j + i ≡ index) ⊎ (j ≡ index + i)) ⊎ ((j + suc i ≤ index) ⊎ (index + suc i ≤ j))
  round_cases i j which = grind arith

  pub gather_reaches :
      (fuel i j : ℕ) (closest : List Contact) (c : Contact)
      → length (gather fuel i index bs closest) < const_alpha
      → kkey_bit_count ≤ fuel + i
      → j < kkey_bit_count
      → index < kkey_bit_count
      → (j + i ≤ index) ⊎ (index + i ≤ j)
      → Mem c (contacts_at j bs)
      → Mem c (gather fuel i index bs closest)
  unfolding gather
  gather_reaches zero i j closest c few enough lt inside which m = absurd (ground arith)
  gather_reaches (suc fuel) i j closest c few enough lt inside which m =
      elim (Bool-cases (ltb i kkey_bit_count && ltb (length closest) const_alpha)) [
        | inl more ↦ rw more (elim (round_cases i j which) [
          | inl here ↦ gather_keeps fuel (suc i) _ c (beside_reaches i j closest c lt here m)
          | inr further ↦
              gather_reaches fuel (suc i) j _ c
                (subst (λ l. length l < const_alpha) (if_true _ closest more) few) (omega arith) lt
                inside further m
        ])
        | inr over ↦
            let short : length closest < const_alpha =
              subst (λ l. length l < const_alpha) (if_false _ closest over) few in
            absurd (ground arith)
      ]

  -- `GetContacts` of some bucket gives the contact.
  abbrev pub Stands : Contact → Type 0
  Stands c = ∥ ((i : ℕ) × Mem c (contacts_at i bs)) ∥₁

  beside-Stands :
      (i : ℕ) (closest : List Contact)
      → ((c : Contact) → Mem c closest → Stands c)
      → (c : Contact) → Mem c (beside index i bs closest)
      → Stands c
  beside-Stands i closest ok c m = elim (beside-Beside i closest) [
    | beside_of lower upper e _ _ below above ↦
        Or.elim ∥∥₁_prop (mem-append.0 (subst (λ l. Mem c l) e m))
          (λ front. Or.elim ∥∥₁_prop (mem-append.0 front) (ok c) (λ n. ∣ (index - i, below c n) ∣₁))
          (λ n. ∣ (index + i, above c n) ∣₁)
  ]

  pub gather-Stands :
      (fuel i : ℕ) (closest : List Contact)
      → ((c : Contact) → Mem c closest → Stands c)
      → (c : Contact) → Mem c (gather fuel i index bs closest)
      → Stands c
  unfolding gather
  gather-Stands zero i closest ok c m = ok c m
  gather-Stands (suc fuel) i closest ok c m =
      elim (Bool-cases (ltb i kkey_bit_count && ltb (length closest) const_alpha)) [
        | inl more ↦
            gather-Stands fuel (suc i) (beside index i bs closest) (beside-Stands i closest ok) c
              (subst (λ l. Mem c l) (if_true _ closest more) m)
        | inr over ↦ ok c (subst (λ l. Mem c l) (if_false _ closest over) m)
      ]
