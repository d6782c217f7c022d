-- ===== src/Kademlia/Table.antt =====
-- The routing table of kademlia/routing.go: 144 buckets, one for each distance to the node's key.
-- `none` is a panic. Each function is what runs on the table under its lock.
pub mod Buckets
pub mod Closest
pub mod Search
pub mod Few
use go_distributed_system.Base.{
  ℕ, zero, suc, ◌+◌, ◌-◌, pos, true, false, ◌&&◌, Option, none, some, List, [], ◌∷◌, ◌++◌, length,
  get_elem?, set, take, replicate, nat_beq, ltb, leb, if◌then◌else◌,
}
use go_distributed_system.Kademlia.Key.{KKey, kkey_byte_count, kkey_bit_count, distance, not_before}
use go_distributed_system.Kademlia.Bucket.{
  const_k, Contact, KBucket, add_to_bucket, remove_key, peek, get_contacts,
}

-- The number of parallel queries.
abbrev pub const_alpha : ℕ
const_alpha = 5

pub record RoutingTable : Type 0 where
  pub buckets : List KBucket

-- What the routing table reads of a node.
pub record Node : Type 0 where
  pub key : KKey
  pub routing_table : RoutingTable

unfoldable pub new_routing_table : RoutingTable
new_routing_table = record { buckets = replicate kkey_bit_count (record { contacts = [] }) }

-- The i-th bucket is replaced.
unfoldable pub put_bucket : ℕ → KBucket → Node → Node
put_bucket i b node = record node {
  routing_table = record { buckets = set node.routing_table.buckets i b };
}

-- `Node.AddContact`
unfoldable pub add_contact : Contact → Node → Option Node
add_contact c node =
    let i = distance c.key node.key in
    elim (get_elem? node.routing_table.buckets i) [
      | none ↦ none
      | some b ↦ some (put_bucket i (add_to_bucket c b) node)
    ]

-- `Node.Remove`
unfoldable pub remove_contact : Contact → Node → Option Node
remove_contact c node =
    let i = distance c.key node.key in
    elim (get_elem? node.routing_table.buckets i) [
      | none ↦ none
      | some b ↦ some (put_bucket i (record { contacts = remove_key c.key b.contacts }) node)
    ]

-- The loop of `NumContacts`.
unfoldable pub count_contacts : List KBucket → ℕ
count_contacts [] = 0
count_contacts (b ∷ bs) = length b.contacts + count_contacts bs

unfoldable pub num_contacts : Node → ℕ
num_contacts node = count_contacts node.routing_table.buckets

-- The zero value of `Contact`.
abbrev pub zero_contact : Contact
zero_contact = record {
  key = replicate kkey_byte_count 0;
  addr = "";
  domain = "";
  id = "";
  start_time = pos 0;
  rtt = pos 0;
  server_mode = false;
}

-- What the loop of `FewContacts` leaves in the slice, and its count n.
unfoldable pub best_contacts : List KBucket → List Contact × ℕ
best_contacts [] = ([], 0)
best_contacts (b ∷ bs) =
    let (contacts, n) = best_contacts bs in
    elim (peek b.contacts) [ none ↦ (zero_contact ∷ contacts, n) | some c ↦ (c ∷ contacts, suc n) ]

unfoldable pub few_contacts : Node → List Contact
few_contacts node = let (contacts, n) = best_contacts node.routing_table.buckets in take n contacts

-- `Buckets[i].GetContacts()`; the index is in range.
unfoldable pub contacts_at : ℕ → List KBucket → List Contact
contacts_at i bs = elim (get_elem? bs i) [ none ↦ [] | some b ↦ get_contacts b ]

-- One round of the loop of `FindClosest`: the buckets at bucketIndex - i and bucketIndex + i.
unfoldable pub beside : ℕ → ℕ → List KBucket → List Contact → List Contact
beside index i bs closest =
    let lower = if leb i index then closest ++ contacts_at (index - i) bs else closest in
    if ltb (index + i) kkey_bit_count then lower ++ contacts_at (index + i) bs else lower

-- The loop from i on; i grows up to 144, so 144 rounds are enough.
unfoldable pub gather : ℕ → ℕ → ℕ → List KBucket → List Contact → List Contact
gather zero i index bs closest = closest
gather (suc fuel) i index bs closest =
    let rest = gather fuel (suc i) index bs (beside index i bs closest) in
    if ltb i kkey_bit_count && ltb (length closest) const_alpha then rest else closest

-- The source takes the lock once for each bucket; here nobody changes the table in between.
unfoldable pub find_closest : KKey → Node → List Contact
find_closest target node =
    let index = distance target node.key in
    let bs = node.routing_table.buckets in
    if nat_beq index kkey_bit_count
    then []
    else let closest = contacts_at index bs in
      let all =
        if ltb (length closest) const_k
        then gather kkey_bit_count 1 index bs closest
        else closest in
      if ltb const_k (length all) then take const_k all else all

-- The loop of `FindSuccessor`.
unfoldable pub first_not_before : KKey → List Contact → Option Contact
first_not_before key [] = none
first_not_before key (contact ∷ rest) =
    let next = first_not_before key rest in
    if not_before contact.key key then some contact else next

unfoldable pub find_successor : KKey → Node → Option Contact
find_successor key node =
    let closest = find_closest key node in
    elim (first_not_before key closest) [ some contact ↦ some contact | none ↦ get_elem? closest 0 ]
