-- ===== src/Kademlia/Table/Buckets.antt =====
-- The table is kept in order: each contact stands in the bucket of its distance.
use mathlib.Core.List.{Mem, mem-cons_of_mem, eq-or-mem_of_mem-cons, not-mem-nil}
use mathlib.Core.List.Perm
use mathlib.Core.Logic.Or
use native.Mathlib.Decide.{ℕ_discrete}
use native.Mathlib.Nat.{ℕ_set}
use go_distributed_system.Kademlia.Key.{KKey, kkey_bit_count, distance}
use go_distributed_system.Kademlia.Key.Metric.{IsKey, distance_range, distance_self}
use go_distributed_system.Base.{
  ℕ, zero, suc, ◌<◌, ◌≡◌, ◌≢◌, ◌⊎◌, inl, inr, sym, ◌∙◌, ap, subst, none, some, List, [], ◌∷◌,
  length, get_elem?, set, length-set, length-replicate, replicate, get_elem?_in_range,
  get_elem?_out_of_range, some_inj, arith, get_elem?-set_self, get_elem?-set_ne,
}
use go_distributed_system.Kademlia.Bucket.{Contact, KBucket, add_to_bucket, remove_key}
use go_distributed_system.Kademlia.Bucket.Contents.{
  IsBucket, empty-IsBucket, Added, replaced, joined, displaced, add_to_bucket-Added,
}
use go_distributed_system.Kademlia.Bucket.Removal.{Removed, absent, taken, remove_key-Removed}
use go_distributed_system.Kademlia.Table.{
  Node, new_routing_table, put_bucket, add_contact, remove_contact,
}

-- A table of 144 buckets, each of which has the contacts at its distance from the node's key.
pub record IsTable (node : Node) : Type 0 where
  pub own_key : IsKey node.key
  pub all_buckets : length node.routing_table.buckets ≡ kkey_bit_count
  pub well :
      (i : ℕ) (b : KBucket)
      → get_elem? node.routing_table.buckets i ≡ some b
      → IsBucket b.contacts × ((c : Contact) → Mem c b.contacts → distance c.key node.key ≡ i)

-- A bucket of the table is replaced by another that belongs there.
put_bucket-IsTable :
    (i : ℕ) (b : KBucket) (node : Node)
    → i < kkey_bit_count
    → IsBucket b.contacts
    → ((c : Contact) → Mem c b.contacts → distance c.key node.key ≡ i)
    → IsTable node
    → IsTable (put_bucket i b node)
unfolding put_bucket
put_bucket-IsTable i b node lt ok near t = record {
  own_key = t.own_key;
  all_buckets = length-set node.routing_table.buckets i b ∙ t.all_buckets;
  well = λ j d at_j. elim (ℕ_discrete j i) [
    | yes e ↦
        let same : b ≡ d = some_inj (
          sym (get_elem?-set_self node.routing_table.buckets i b (omega (arith, t.all_buckets)))
          ∙ subst (λ k. get_elem? (set node.routing_table.buckets i b) k ≡ some d) e at_j) in
        subst
          (λ z.
            IsBucket z.contacts × ((c : Contact) → Mem c z.contacts → distance c.key node.key ≡ j))
          same (ok, λ c m. near c m ∙ sym e)
    | no ne ↦ t.well j d (sym (get_elem?-set_ne node.routing_table.buckets i j b ne) ∙ at_j)
  ];
}

-- The contacts of a bucket after `AddContact` were there before, but for the one that was added.
added_from :
    (c : Contact) (h h' : List Contact) → Added c h h' → (x : Contact) → Mem x h' → Mem x (c ∷ h)
added_from c h h' (replaced old _ _ same) x m = (Perm.mem_iff same).1 (mem-cons_of_mem old m)
added_from c h h' (joined _ _ same) x m = (Perm.mem_iff same).0 m
added_from c h h' (displaced best _ _ _ _ same) x m = (Perm.mem_iff same).1 (mem-cons_of_mem best m)

removed_from :
    (k : KKey) (h h' : List Contact) → Removed k h h' → (x : Contact) → Mem x h' → Mem x h
removed_from k h h' (absent _ e) x m = subst (λ l. Mem x l) e m
removed_from k h h' (taken old _ _ same) x m = (Perm.mem_iff same).1 (mem-cons_of_mem old m)

-- What adding a contact to the table leaves.
pub record Stored (c : Contact) (node node' : Node) : Type 0 where
  pub bucket : KBucket
  pub bucket' : KBucket
  pub table : IsTable node'
  pub before : get_elem? node.routing_table.buckets (distance c.key node.key) ≡ some bucket
  pub after : get_elem? node'.routing_table.buckets (distance c.key node.key) ≡ some bucket'
  pub others :
      (j : ℕ)
      → j ≢ distance c.key node.key
      → get_elem? node'.routing_table.buckets j ≡ get_elem? node.routing_table.buckets j
  pub added : Added c bucket.contacts bucket'.contacts

add_contact_at :
    (c : Contact) (node : Node) (b : KBucket)
    → get_elem? node.routing_table.buckets (distance c.key node.key) ≡ some b
    → add_contact c node ≡ some (put_bucket (distance c.key node.key) (add_to_bucket c b) node)
unfolding add_contact
add_contact_at c node b e = rw (e, add_contact)

add_contact-none :
    (c : Contact) (node : Node)
    → get_elem? node.routing_table.buckets (distance c.key node.key) ≡ none
    → add_contact c node ≡ none
unfolding add_contact
add_contact-none c node e = rw (e, add_contact)

-- With a contact whose key has 18 bytes and a table in order, `AddContact` panics on the node's
-- own key, and for every other key it keeps the table in order and adds the contact to the one
-- bucket of its distance, leaving the other buckets as they are.
pub add_contact-Stored :
    (c : Contact) (node : Node)
    → IsKey c.key
    → IsTable node
    → ((c.key ≡ node.key) × (add_contact c node ≡ none))
      ⊎ ((c.key ≢ node.key)
          × ((node' : Node) × (add_contact c node ≡ some node') × Stored c node node'))
unfolding put_bucket
add_contact-Stored c node ok t = elim (distance_range c.key node.key ok t.own_key) [
  | inr (far, same) ↦ inl (
    same,
    add_contact-none c node (
        get_elem?_out_of_range node.routing_table.buckets (distance c.key node.key)
          (omega (arith, t.all_buckets))),
  )
  | inl lt ↦
      let i = distance c.key node.key in
      let (b, at_i) =
        get_elem?_in_range node.routing_table.buckets i (omega (arith, t.all_buckets)) in
      let (well, near) = t.well i b at_i in
      let (well', added) = add_to_bucket-Added c b well in
      inr (
        λ e. absurd (
            omega (
              arith,
              distance_self node.key,
              subst (λ k. distance k node.key < kkey_bit_count) e lt,
            )),
        (
          put_bucket i (add_to_bucket c b) node,
          add_contact_at c node b at_i,
          record {
            bucket = b;
            bucket' = add_to_bucket c b;
            before = at_i;
            after =
                get_elem?-set_self node.routing_table.buckets i (add_to_bucket c b)
                  (omega (arith, t.all_buckets));
            others = λ j ne. get_elem?-set_ne node.routing_table.buckets i j (add_to_bucket c b) ne;
            added = added;
            table =
                put_bucket-IsTable i (add_to_bucket c b) node lt well'
                  (λ x m.
                    Or.elim (ℕ_set _ _) (eq-or-mem_of_mem-cons (added_from c _ _ added x m))
                      (λ e. ap (λ z. distance z.key node.key) e) (near x))
                  t;
          },
        ),
      )
]

-- What removing a contact from the table leaves.
pub record Dropped (c : Contact) (node node' : Node) : Type 0 where
  pub bucket : KBucket
  pub bucket' : KBucket
  pub table : IsTable node'
  pub before : get_elem? node.routing_table.buckets (distance c.key node.key) ≡ some bucket
  pub after : get_elem? node'.routing_table.buckets (distance c.key node.key) ≡ some bucket'
  pub others :
      (j : ℕ)
      → j ≢ distance c.key node.key
      → get_elem? node'.routing_table.buckets j ≡ get_elem? node.routing_table.buckets j
  pub removed : Removed c.key bucket.contacts bucket'.contacts

-- With a key of 18 bytes that is not the node's own and a table in order, `Remove` does not
-- panic, keeps the table in order, takes the contact with the key out of the bucket of its
-- distance, if there is one, and leaves all other contacts.
pub remove_contact-Dropped :
    (c : Contact) (node : Node)
    → IsKey c.key
    → c.key ≢ node.key
    → IsTable node
    → (node' : Node) × (remove_contact c node ≡ some node') × Dropped c node node'
unfolding remove_contact put_bucket
remove_contact-Dropped c node ok ne t = elim (distance_range c.key node.key ok t.own_key) [
  | inr (far, same) ↦ absurd (ne same)
  | inl lt ↦
      let i = distance c.key node.key in
      let bs = node.routing_table.buckets in
      let (b, at_i) = get_elem?_in_range bs i (omega (arith, t.all_buckets)) in
      let (well, near) = t.well i b at_i in
      let (well', removed) = remove_key-Removed c.key b.contacts well in
      let b' : KBucket = record { contacts = remove_key c.key b.contacts } in
      (
        put_bucket i b' node,
        rw (at_i, remove_contact),
        record {
          bucket = b;
          bucket' = b';
          before = at_i;
          after = get_elem?-set_self bs i b' (omega (arith, t.all_buckets));
          others = λ j other. get_elem?-set_ne bs i j b' other;
          removed = removed;
          table =
              put_bucket-IsTable i b' node lt well'
                (λ x m. near x (removed_from c.key _ _ removed x m)) t;
        },
      )
]

get_elem?-replicate :
    (n i : ℕ) (b : KBucket) {d : KBucket} → get_elem? (replicate n b) i ≡ some d → b ≡ d
get_elem?-replicate zero i b e = ground arith
get_elem?-replicate (suc n) zero b e = some_inj e
get_elem?-replicate (suc n) (suc i) b e = get_elem?-replicate n i b e

-- `NewRoutingTable` gives a table that is in order.
pub new_routing_table-IsTable :
    (key : KKey) → IsKey key → IsTable (record { key = key; routing_table = new_routing_table })
unfolding new_routing_table
new_routing_table-IsTable key ok = record {
  own_key = ok;
  all_buckets = length-replicate {A = KBucket} kkey_bit_count (record { contacts = [] });
  well = λ i b at_i.
      subst (λ z. IsBucket z.contacts × ((c : Contact) → Mem c z.contacts → distance c.key key ≡ i))
        (get_elem?-replicate kkey_bit_count i (record { contacts = [] }) at_i)
        (empty-IsBucket, λ c m. absurd (not-mem-nil m));
}
