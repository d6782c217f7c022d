-- ===== src/Kademlia/Table/Few.antt =====
-- What `FewContacts` returns: one slot for a bucket, and as many slots as there are buckets with
-- contacts, counted from the first bucket.
use go_distributed_system.Base.{
  ℕ, zero, suc, ◌+◌, ◌<◌, ◌≤◌, ◌≡◌, refl, ◌∙◌, ap, inl, inr, none, some, List, [], ◌∷◌, length,
  some_inj, get_elem?, get_elem?-take, length-take_le, Option-cases, arith,
}
use go_distributed_system.Kademlia.Bucket.{Contact, KBucket, peek}
use go_distributed_system.Kademlia.Table.{Node, zero_contact, best_contacts, few_contacts}

-- 1 for a bucket with contacts.
unfoldable pub mark : KBucket → ℕ
mark b = elim (peek b.contacts) [ none ↦ 0 | some c ↦ 1 ]

-- How many buckets have contacts.
unfoldable pub filled : List KBucket → ℕ
filled [] = 0
filled (b ∷ bs) = mark b + filled bs

-- The contact that leads the bucket, or the zero value.
unfoldable pub slot : KBucket → Contact
slot b = elim (peek b.contacts) [ none ↦ zero_contact | some c ↦ c ]

best_contacts_step :
    (b : KBucket) (bs : List KBucket)
    → best_contacts (b ∷ bs) ≡ (slot b ∷ (best_contacts bs).0, mark b + (best_contacts bs).1)
unfolding best_contacts slot mark
best_contacts_step b bs = elim (Option-cases (peek b.contacts)) [
  | inl e ↦
      rw (e, best_contacts, slot, mark)
        (ap (λ n. (zero_contact ∷ (best_contacts bs).0, n)) (omega arith))
  | inr (c, e) ↦
      rw (e, best_contacts, slot, mark) (ap (λ n. (c ∷ (best_contacts bs).0, n)) (omega arith))
]

mark_le : (b : KBucket) → mark b ≤ 1
unfolding mark
mark_le b = elim (Option-cases (peek b.contacts)) [
  | inl e ↦ rw (e, mark) (omega arith)
  | inr (c, e) ↦ rw (e, mark) (omega arith)
]

filled_le : (bs : List KBucket) → filled bs ≤ length bs
unfolding filled
filled_le [] = omega arith
filled_le (b ∷ bs) = omega (arith, mark_le b, filled_le bs)

best_contacts_count : (bs : List KBucket) → (best_contacts bs).1 ≡ filled bs
unfolding filled best_contacts
best_contacts_count [] = refl
best_contacts_count (b ∷ bs) =
    ap (λ r. r.1) (best_contacts_step b bs) ∙ ap (λ n. mark b + n) (best_contacts_count bs)

length-best_contacts : (bs : List KBucket) → length (best_contacts bs).0 ≡ length bs
unfolding best_contacts
length-best_contacts [] = refl
length-best_contacts (b ∷ bs) =
    ap (λ r. length r.0) (best_contacts_step b bs) ∙ ap suc (length-best_contacts bs)

best_contacts_at :
    (bs : List KBucket) (j : ℕ) {b : KBucket}
    → get_elem? bs j ≡ some b
    → get_elem? (best_contacts bs).0 j ≡ some (slot b)
unfolding best_contacts
best_contacts_at [] j e = ground arith
best_contacts_at (d ∷ bs) zero e =
    ap (λ r. get_elem? r.0 0) (best_contacts_step d bs) ∙ ap (λ z. some (slot z)) (some_inj e)
best_contacts_at (d ∷ bs) (suc j) e =
    ap (λ r. get_elem? r.0 (suc j)) (best_contacts_step d bs) ∙ best_contacts_at bs j e

-- `FewContacts` returns as many contacts as there are buckets with contacts, but they are what
-- the first buckets of the table hold, with the zero value for an empty one.
pub few_contacts_lem :
    (node : Node)
    → (length (few_contacts node) ≡ filled node.routing_table.buckets)
      × ((j : ℕ) (b : KBucket)
          → j < filled node.routing_table.buckets
          → get_elem? node.routing_table.buckets j ≡ some b
          → get_elem? (few_contacts node) j ≡ some (slot b))
unfolding few_contacts
few_contacts_lem node =
    let bs = node.routing_table.buckets in
    rw (best_contacts_count bs) (
      length-take_le (filled bs) (best_contacts bs).0
          (omega (arith, filled_le bs, length-best_contacts bs)),
      λ j b lt at_j.
          get_elem?-take (filled bs) (best_contacts bs).0 j lt ∙ best_contacts_at bs j at_j,
    )
