-- ===== src/Kademlia/Heap/Operations.antt =====
-- `Push`, `Pop`, `Remove` and `Fix` keep the order of the heap, and which elements they leave.
use native.Mathlib.Decide.{ℕ_discrete}
use mathlib.Core.List.{Perm, append-nil, perm_middle}
use mathlib.Core.List.Perm
use go_distributed_system.Kademlia.Heap.{
  swap, parent, up, down, settle, drop_last, push, pop, remove, fix,
}
use go_distributed_system.Kademlia.Heap.Swap.{
  length-swap, swap-perm, get_elem?-swap_out, get_elem?-swap_right, set-perm,
}
use go_distributed_system.Base.{
  ℕ, zero, suc, ◌-◌, ◌<◌, ◌≤◌, ◌≡◌, inl, inr, sym, ◌∙◌, subst, Bool, true, false, some, List, [],
  ◌∷◌, ◌++◌, length, get_elem?, set, nat_beq, length-append, length-set, get_elem?-append_left,
  get_elem?-lt, get_elem?_in_range, Bool-cases, arith, get_elem?-set_ne,
}
use go_distributed_system.Kademlia.Heap.Order.{Ranking, IsHeap, Broken}
use go_distributed_system.Kademlia.Heap.Up.{up_from-IsHeap, up_from-perm, length-up_from}
use go_distributed_system.Kademlia.Heap.Down.{settle-IsHeap, down_from-Moves}
use go_distributed_system.Kademlia.Heap.Settle.{
  settle-Settled, drop_last-perm, length-drop_last, drop_last-IsHeap,
}

module _ {A : Type 0} {less : A → A → Bool} (rank : Ranking less) where
  -- Pushing puts the element in, and keeps the order.
  pub push-IsHeap :
      (x : A) (h : List A)
      → IsHeap less (length h) h
      → IsHeap less (suc (length h)) (push less x h) × Perm (push less x h) (x ∷ h)
  unfolding push up
  push-IsHeap x h heap =
      let n = length h in
      let longer = length-append h (x ∷ []) in
      (
        up_from-IsHeap rank (suc n) n (suc n) (h ++ x ∷ []) (omega arith) (omega arith)
            (omega (arith, longer))
            (record {
              order = λ m a b pos lt nm np am ap.
                  heap m a b pos (omega arith)
                    (sym (get_elem?-append_left h (x ∷ []) m (omega arith)) ∙ am)
                    (sym (get_elem?-append_left h (x ∷ []) (parent m) (omega arith)) ∙ ap);
              skip = λ m a b pos lt e q am ap. absurd (omega arith);
            })
            (λ m a b pos lt e am ap. absurd (omega arith)),
        Perm.trans (up_from-perm less (suc n) n (h ++ x ∷ []))
            (Perm.trans (perm_middle h []) (Perm.cons x (rw append-nil (Perm.refl h)))),
      )

  pub length-push : (x : A) (h : List A) → length (push less x h) ≡ suc (length h)
  unfolding push up
  length-push x h =
      length-up_from less (suc (length h)) (length h) (h ++ x ∷ [])
      ∙ length-append h (x ∷ [])
      ∙ omega arith

  -- The element at i is set aside in the last place, another one is out of place at i.
  swapped-Broken :
      (i n : ℕ) (h : List A) {a : A}
      → length h ≡ suc n
      → i < n
      → get_elem? h i ≡ some a
      → IsHeap less (suc n) h
      → Broken less i n (swap i n h)
  swapped-Broken i n h {a} long lt at_i heap = record {
    order = λ m x y pos l nm np am ap.
        heap m x y pos (omega arith) (sym (get_elem?-swap_out h i n m nm (λ e. omega arith)) ∙ am)
          (sym (get_elem?-swap_out h i n (parent m) np (λ e. omega arith)) ∙ ap);
    skip = λ m x y pos l e q am ap.
        rank.trans y a x
          (heap i a y q (omega arith) at_i
            (sym (get_elem?-swap_out h i n (parent i) (λ z. omega arith) (λ z. omega arith)) ∙ ap))
          (heap m x a pos (omega arith)
            (sym (get_elem?-swap_out h i n m (λ z. omega arith) (λ z. omega arith)) ∙ am)
            (subst (λ k. get_elem? h k ≡ some a) (sym e) at_i));
  }

  -- Removing the element at i leaves a heap of the others.
  pub remove-IsHeap :
      (i n : ℕ) (h : List A) {a : A}
      → length h ≡ suc n
      → get_elem? h i ≡ some a
      → IsHeap less (suc n) h
      → IsHeap less n (remove less i h)
        × (length (remove less i h) ≡ n)
        × Perm h (a ∷ remove less i h)
  unfolding remove
  remove-IsHeap i n h {a} long at_i heap =
      let cut : length h - 1 ≡ n = omega arith in
      elim (ℕ_discrete n i) [
        | yes e ↦
            let same : nat_beq n i ≡ true = ground arith in
            rw (cut, same)
              (
                drop_last-IsHeap less h n long (λ m x y pos l. heap m x y pos (omega arith)),
                length-drop_last h ∙ cut,
                drop_last-perm h n long (subst (λ k. get_elem? h k ≡ some a) (sym e) at_i),
              )
        | no ne ↦
            let differ : nat_beq n i ≡ false = ground arith in
            let inside : i < n = omega (arith, get_elem?-lt h i at_i) in
            let s = settle-Settled less i n (swap i n h) inside in
            let (z, at_n) = get_elem?_in_range h n (omega arith) in
            let long' : length (settle less i n (swap i n h)) ≡ suc n =
              s.same_length ∙ length-swap i n h ∙ long in
            rw (cut, differ)
              (
                drop_last-IsHeap less (settle less i n (swap i n h)) n long' (
                    settle-IsHeap rank n i (swap i n h) inside (omega (arith, length-swap i n h))
                      (swapped-Broken i n h long inside at_i heap)),
                length-drop_last (settle less i n (swap i n h)) ∙ omega arith,
                Perm.trans (Perm.symm (Perm.trans s.same_items (swap-perm i n h))) (
                    drop_last-perm (settle less i n (swap i n h)) n long'
                      (s.outside n (omega arith) ∙ get_elem?-swap_right h i n at_i at_n)),
              )
      ]

  -- The least element leads: nothing is less than the root.
  pub root-least :
      (n m : ℕ) (h : List A) {top a : A}
      → n ≤ length h
      → IsHeap less n h
      → get_elem? h 0 ≡ some top
      → m < n
      → get_elem? h m ≡ some a
      → less a top ≡ false
  root-least n m h {top} {a} long heap at_0 lt at_m = climb (suc m) m a (omega arith) lt at_m
    where
      climb : (fuel m : ℕ) (a : A) → m < fuel → m < n → get_elem? h m ≡ some a → less a top ≡ false
      climb zero m a enough lt at_m = absurd (omega arith)
      climb (suc fuel) zero a enough lt at_m = ground (arith, rank.asym a top, rank.asym top a)
      climb (suc fuel) (suc m) a enough lt at_m =
          let (b, at_p) = get_elem?_in_range h (parent (suc m)) (omega arith) in
          rank.trans top b a (climb fuel (parent (suc m)) b (omega arith) (omega arith) at_p)
            (heap (suc m) a b (omega arith) lt at_m at_p)

  settle_root : (n : ℕ) (h : List A) → settle less 0 n h ≡ (down less 0 n h).0
  unfolding settle up
  settle_root n h = elim (Bool-cases (down less 0 n h).1) [
    | inl moved ↦ rw moved
    | inr stayed ↦ rw stayed
  ]

  take_none : (h : List A) → length h ≡ 1 → drop_last h ≡ []
  unfolding drop_last
  take_none h e = let cut : length h - 1 ≡ 0 = omega arith in rw cut

  length-down : (i n : ℕ) (h : List A) → length (down less i n h).0 ≡ length h
  unfolding down
  length-down i n h = (down_from-Moves less n n i h).same_length

  -- `Pop` removes the root.
  pub pop-eq-remove : (h : List A) (n : ℕ) → length h ≡ suc n → pop less h ≡ remove less 0 h
  unfolding pop remove
  pop-eq-remove h zero long =
      let cut : length h - 1 ≡ 0 = omega arith in
      rw cut (
        take_none _ (omega (arith, length-down 0 0 (swap 0 0 h), length-swap 0 0 h))
        ∙ sym (take_none h long))
  pop-eq-remove h (suc n) long =
      let cut : length h - 1 ≡ suc n = omega arith in
      let differ : nat_beq (suc n) 0 ≡ false = ground arith in
      rw (cut, differ, settle_root (suc n) (swap 0 (suc n) h))

  -- `Fix` after a write at i keeps the order.
  pub fix-IsHeap :
      (i : ℕ) (x : A) (h : List A) {a : A}
      → get_elem? h i ≡ some a
      → IsHeap less (length h) h
      → IsHeap less (length h) (fix less i (set h i x))
        × (length (fix less i (set h i x)) ≡ length h)
        × Perm (x ∷ h) (a ∷ fix less i (set h i x))
  unfolding fix
  fix-IsHeap i x h {a} at_i heap =
      let n = length h in
      let inside : i < n = get_elem?-lt h i at_i in
      let same : length (set h i x) ≡ n = length-set h i x in
      let s = settle-Settled less i n (set h i x) inside in
      rw same (
        settle-IsHeap rank n i (set h i x) inside (omega arith) (record {
          order = λ m y z pos l nm np am ap.
              heap m y z pos l (sym (get_elem?-set_ne h i m x nm) ∙ am)
                (sym (get_elem?-set_ne h i (parent m) x np) ∙ ap);
          skip = λ m y z pos l e q am ap.
              rank.trans z a y
                (heap i a z q inside at_i
                  (sym (get_elem?-set_ne h i (parent i) x (λ w. omega arith)) ∙ ap))
                (heap m y a pos l (sym (get_elem?-set_ne h i m x (λ w. omega arith)) ∙ am)
                  (subst (λ k. get_elem? h k ≡ some a) (sym e) at_i));
        }),
        s.same_length ∙ same,
        Perm.trans (set-perm h i x at_i) (Perm.cons a (Perm.symm s.same_items)),
      )
