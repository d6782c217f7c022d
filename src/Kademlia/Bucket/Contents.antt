-- ===== src/Kademlia/Bucket/Contents.antt =====
-- What the operations of a bucket leave.
use mathlib.Core.List.{Mem, Memᴰ, Nodup, Nodup-cons, Nodup-nil, Perm, mem-cons_of_mem}
use mathlib.Core.List.Perm
use go_distributed_system.Base.{
  ℕ, zero, suc, ◌≤◌, ◌<◌, ◌≡◌, inl, inr, refl, sym, ◌∙◌, subst, true, false, none, some, List, [],
  ◌∷◌, length, get_elem?, set, map, ltb, Bool-cases, arith, get_elem?_in_range, get_elem?-lt,
  some_inj,
}
use go_distributed_system.Kademlia.Key.{key_eq}
use go_distributed_system.Kademlia.Heap.{push, pop, remove, fix}
use go_distributed_system.Kademlia.Heap.Order.{IsHeap}
use go_distributed_system.Kademlia.Heap.Operations.{
  push-IsHeap, length-push, remove-IsHeap, pop-eq-remove, root-least, fix-IsHeap,
}
use go_distributed_system.Kademlia.Bucket.{
  const_k, Contact, less, KBucket, find_key, peek, add_to_bucket,
}
use go_distributed_system.Kademlia.Bucket.Order.{
  less-Ranking, key_of, nowhere, at_index, find_key-Found,
}

-- A bucket: a heap of at most 20 contacts, no two of which have the same key.
pub record IsBucket (h : List Contact) : Type 0 where
  pub ordered : IsHeap less (length h) h
  pub room : length h ≤ const_k
  pub distinct : Nodup (map key_of h)

pub empty-IsBucket : IsBucket []
empty-IsBucket = record {
  ordered = λ m a b p lt e e'. absurd (omega arith);
  room = omega arith;
  distinct = Nodup-nil;
}

-- What `AddContact` does: it takes the place of the contact with its key, it joins the others,
-- or the contact that leads the heap has to go.
pub data Added (c : Contact) (h h' : List Contact) : Type 0 where
  replaced : (old : Contact) → Mem old h → old.key ≡ c.key → Perm (c ∷ h) (old ∷ h') → Added c h h'
  joined : ¬ Mem c.key (map key_of h) → length h < const_k → Perm h' (c ∷ h) → Added c h h'
  displaced :
      (best : Contact)
      → ¬ Mem c.key (map key_of h)
      → length h ≡ const_k
      → peek h ≡ some best
      → ((m : ℕ) (a : Contact) → get_elem? h m ≡ some a → less a best ≡ false)
      → Perm (c ∷ h) (best ∷ h')
      → Added c h h'

mem_at : (h : List Contact) (i : ℕ) {a : Contact} → get_elem? h i ≡ some a → Mem a h
mem_at [] i at_i = ground arith
mem_at (x ∷ h) zero at_i = ∣ Memᴰ.head (sym (some_inj at_i)) ∣₁
mem_at (x ∷ h) (suc i) at_i = mem-cons_of_mem x (mem_at h i at_i)

peek_lem : (h : List Contact) → peek h ≡ get_elem? h 0
unfolding peek
peek_lem [] = refl
peek_lem (a ∷ h) = refl

-- A contact with a new key may join.
push-IsBucket :
    (c : Contact) (h : List Contact)
    → length h < const_k
    → ¬ Mem c.key (map key_of h)
    → IsBucket h
    → IsBucket (push less c h)
push-IsBucket c h lt free b =
    let (heap, same) = push-IsHeap less-Ranking c h b.ordered in
    record {
      ordered = rw (length-push less-Ranking c h) heap;
      room = omega (arith, length-push less-Ranking c h);
      distinct = Perm.nodup (Perm.symm (Perm.map key_of same)) (Nodup-cons.1 (free, b.distinct));
    }

-- A contact is taken out.
pub remove-IsBucket :
    (i : ℕ) (h : List Contact) {a : Contact}
    → get_elem? h i ≡ some a
    → IsBucket h
    → IsBucket (remove less i h)
      × Perm h (a ∷ remove less i h)
      × (length h ≡ suc (length (remove less i h)))
      × (¬ Mem a.key (map key_of (remove less i h)))
remove-IsBucket i [] at_i b = ground arith
remove-IsBucket i (x ∷ h) {a} at_i b =
    let (heap, long, same) = remove-IsHeap less-Ranking i (length h) (x ∷ h) refl at_i b.ordered in
    let (free, distinct) = Nodup-cons.0 (Perm.nodup (Perm.map key_of same) b.distinct) in
    (
      record { ordered = rw long heap; room = omega (arith, b.room); distinct = distinct },
      same,
      omega arith,
      free,
    )

-- The contact leads the heap, and has to go.
displace :
    (c best : Contact) (h : List Contact)
    → length h ≡ const_k
    → get_elem? h 0 ≡ some best
    → ¬ Mem c.key (map key_of h)
    → IsBucket h
    → IsBucket (push less c (pop less h)) × Added c h (push less c (pop less h))
displace c best h all at_0 free b =
    let (b', same, short, _) = remove-IsBucket 0 h at_0 b in
    let free' : ¬ Mem c.key (map key_of (remove less 0 h)) =
      λ m. free ((Perm.mem_iff (Perm.map key_of same)).1 (mem-cons_of_mem best.key m)) in
    let pushed = push-IsHeap less-Ranking c (remove less 0 h) b'.ordered in
    rw (pop-eq-remove less-Ranking h 19 all) (
      push-IsBucket c _ (omega arith) free' b',
      displaced best free all (peek_lem h ∙ at_0)
          (λ m a at_m.
            root-least less-Ranking (length h) m h (omega arith) b.ordered at_0
              (get_elem?-lt h m at_m) at_m)
          (Perm.trans (Perm.cons c same)
            (Perm.trans (Perm.swap best c _) (Perm.cons best (Perm.symm pushed.1)))),
    )

replace :
    (i : ℕ) (c old : Contact) (h : List Contact)
    → get_elem? h i ≡ some old
    → old.key ≡ c.key
    → IsBucket h
    → IsBucket (fix less i (set h i c)) × Added c h (fix less i (set h i c))
replace i c old h at_i own b =
    let (heap, long, same) = fix-IsHeap less-Ranking i c h at_i b.ordered in
    let keys = Perm.cons_inv (
      subst (λ k. Perm (c.key ∷ map key_of h) (k ∷ map key_of (fix less i (set h i c)))) own
        (Perm.map key_of same)) in
    (
      record {
        ordered = rw long heap;
        room = omega (arith, b.room);
        distinct = Perm.nodup keys b.distinct;
      },
      replaced old (mem_at h i at_i) own same,
    )

add_replaces :
    (c : Contact) (b : KBucket) (i : ℕ)
    → find_key c.key b.contacts ≡ some i
    → add_to_bucket c b ≡ record { contacts = fix less i (set b.contacts i c) }
unfolding add_to_bucket
add_replaces c b i e = rw (e, add_to_bucket)

add_joins :
    (c : Contact) (b : KBucket)
    → find_key c.key b.contacts ≡ none
    → ltb (length b.contacts) const_k ≡ true
    → add_to_bucket c b ≡ record { contacts = push less c b.contacts }
unfolding add_to_bucket
add_joins c b e more = rw (e, more, add_to_bucket)

add_displaces :
    (c : Contact) (b : KBucket)
    → find_key c.key b.contacts ≡ none
    → ltb (length b.contacts) const_k ≡ false
    → add_to_bucket c b ≡ record { contacts = push less c (pop less b.contacts) }
unfolding add_to_bucket
add_displaces c b e full = rw (e, full, add_to_bucket)

-- A heap of at most 20 contacts with different keys stays one when a contact is added, and the
-- contact replaces the one with its key, or else joins where there is room, or else takes the
-- place of the contact that no other in the bucket is less than.
pub add_to_bucket-Added :
    (c : Contact) (b : KBucket)
    → IsBucket b.contacts
    → IsBucket (add_to_bucket c b).contacts × Added c b.contacts (add_to_bucket c b).contacts
add_to_bucket-Added c b well = elim (find_key-Found c.key b.contacts) [
  | at_index i old e at_i own ↦ rw (add_replaces c b i e) (replace i c old b.contacts at_i own well)
  | nowhere e free ↦ elim (Bool-cases (ltb (length b.contacts) const_k)) [
    | inl more ↦
        let lt : length b.contacts < const_k = ground arith in
        rw (add_joins c b e more) (
          push-IsBucket c b.contacts lt free well,
          joined free lt (push-IsHeap less-Ranking c b.contacts well.ordered).1,
        )
    | inr full ↦
        let all : length b.contacts ≡ const_k = ground (arith, well.room) in
        let (best, at_0) = get_elem?_in_range b.contacts 0 (omega arith) in
        rw (add_displaces c b e full) (displace c best b.contacts all at_0 free well)
  ]
]
