-- ===== src/Tests/Routing.antt =====
-- The routing table of kademlia/ at concrete inputs.
use mathlib.Core.List.{Mem, mem-cons_self}
use go_distributed_system.Base.{
  ℕ, inl, inr, pos, ◌<◌, String, if◌then◌else◌, ◌≡◌, ◌≢◌, ◌⊎◌, some_inj, refl, sym, subst, true,
  false, Option, none, some, List, [], ◌∷◌, length, get_elem?, replicate, arith,
}
use go_distributed_system.Kademlia.Key.Metric.{IsKey}
use go_distributed_system.Kademlia.Bucket.Contents.{IsBucket, empty-IsBucket, add_to_bucket-Added}
use go_distributed_system.Kademlia.Table.Buckets.{
  IsTable, Stored, new_routing_table-IsTable, add_contact-Stored, Dropped, remove_contact-Dropped,
}
use go_distributed_system.Kademlia.Table.Search.{
  find_closest_complete, Successor, find_successor-Successor,
}
use go_distributed_system.Kademlia.Table.Few.{filled, slot, few_contacts_lem}
use go_distributed_system.Kademlia.Server.Replies.{Replied, join-Replied}
use go_distributed_system.Kademlia.Key.{
  KKey, kkey_bit_count, distance, leading_zeros, leading_zeros_from, xor, xor_bits, leading_zeros8,
  key_beq, to_kkey,
}
use go_distributed_system.Kademlia.Heap.{push, up, up_from, less_at, swap}
use go_distributed_system.Kademlia.Bucket.{
  Contact, KBucket, less, add_to_bucket, peek, find_key, get_contacts,
}
use go_distributed_system.Kademlia.Table.{
  Node, remove_contact, new_routing_table, zero_contact, add_contact, few_contacts, find_closest,
  find_successor, contacts_at, put_bucket, const_alpha, gather, beside, best_contacts,
}
use go_distributed_system.Kademlia.Server.{get_contacts_request, join, reply_contacts}
use go_distributed_system.Tests.Clusters.{from_some}

-- The key that begins with the byte, with zeros behind it.
abbrev key_from : ℕ → KKey
key_from b = b ∷ replicate 17 0

key_from-IsKey : (b : ℕ) → b < 256 → IsKey (key_from b)
key_from-IsKey b lt =
    let z : 0 < 256 = omega arith in
    (
      refl,
      (lt, (z, (z, (z, (z, (z, (z, (z, (z, (z, (z, (z, (z, (z, (z, (z, (z, (z, tt)))))))))))))))))),
    )

abbrev own_node : Node
own_node = record { key = key_from 0; routing_table = new_routing_table }

abbrev contact_of : ℕ → ℕ → Contact
contact_of b start_time = record {
  key = key_from b;
  addr = "addr";
  domain = "domain";
  id = "id";
  start_time = pos start_time;
  rtt = pos 3;
  server_mode = true;
}

abbrev alice : Contact
alice = contact_of 128 10

abbrev bob : Contact
bob = contact_of 192 20

abbrev carol : Contact
carol = contact_of 1 15

first-IsKey : IsKey (key_from 0)
first-IsKey = key_from-IsKey 0 (omega arith)

own_node-IsTable : IsTable own_node
own_node-IsTable = new_routing_table-IsTable (key_from 0) first-IsKey

alice-IsKey : IsKey alice.key
alice-IsKey = key_from-IsKey 128 (omega arith)

bob-IsKey : IsKey bob.key
bob-IsKey = key_from-IsKey 192 (omega arith)

distance_far : distance (key_from 128) (key_from 192) ≡ 1
unfolding distance leading_zeros leading_zeros_from xor xor_bits leading_zeros8
distance_far = refl

abbrev two : KBucket
two = add_to_bucket bob (add_to_bucket alice (record { contacts = [] }))

two-IsBucket : IsBucket two.contacts
two-IsBucket =
    (add_to_bucket-Added bob (add_to_bucket alice (record { contacts = [] }))
      (add_to_bucket-Added alice (record { contacts = [] }) empty-IsBucket).0).0

-- Bob, who started later, leads.
bob_leads : two.contacts ≡ bob ∷ alice ∷ []
unfolding add_to_bucket find_key push up up_from key_beq less_at less swap
bob_leads = refl

add_contact-Stored_example :
    ((alice.key ≡ own_node.key) × (add_contact alice own_node ≡ none))
    ⊎ ((alice.key ≢ own_node.key)
        × ((node' : Node) × (add_contact alice own_node ≡ some node')
            × Stored alice own_node node'))
add_contact-Stored_example = add_contact-Stored alice own_node alice-IsKey own_node-IsTable

abbrev with_alice : Node
with_alice = from_some own_node (add_contact alice own_node)

alice_not_own : alice.key ≢ own_node.key
alice_not_own e = grind arith

-- Alice's table is in order, by what adding her gives.
with_alice-IsTable : IsTable with_alice
with_alice-IsTable = elim (add_contact-Stored alice own_node alice-IsKey own_node-IsTable) [
  | inl (same, _) ↦ absurd (alice_not_own same)
  | inr (_, (node', e, stored)) ↦ subst (λ n. IsTable (from_some own_node n)) (sym e) stored.table
]

abbrev with_carol : Node
with_carol = from_some with_alice (add_contact carol with_alice)

alice_not_host : alice.key ≢ with_alice.key
unfolding distance leading_zeros leading_zeros_from xor xor_bits leading_zeros8 new_routing_table
    add_contact put_bucket add_to_bucket find_key push up up_from key_beq less_at less swap
alice_not_host = alice_not_own

remove_contact-Dropped_example :
    (node' : Node) × (remove_contact alice with_alice ≡ some node') × Dropped alice with_alice node'
remove_contact-Dropped_example =
    remove_contact-Dropped alice with_alice alice-IsKey alice_not_host with_alice-IsTable

find_closest_run : find_closest (key_from 129) with_carol ≡ alice ∷ carol ∷ []
unfolding distance leading_zeros leading_zeros_from xor xor_bits leading_zeros8 new_routing_table
    add_contact put_bucket add_to_bucket find_key push up up_from key_beq less_at less swap
    find_closest gather beside contacts_at get_contacts
find_closest_run = refl

carol_far : distance (key_from 129) with_carol.key < kkey_bit_count
unfolding distance leading_zeros leading_zeros_from xor xor_bits leading_zeros8 new_routing_table
    add_contact put_bucket add_to_bucket find_key push up up_from key_beq less_at less swap
carol_far = omega arith

carol_stored : Mem carol (contacts_at 7 with_carol.routing_table.buckets)
unfolding contacts_at get_contacts distance leading_zeros leading_zeros_from xor xor_bits
    leading_zeros8 new_routing_table add_contact put_bucket add_to_bucket find_key push up up_from
    key_beq less_at less swap
carol_stored = mem-cons_self

few_found : length (find_closest (key_from 129) with_carol) < const_alpha
few_found =
    subst (λ (l : List Contact). length l < const_alpha) (sym find_closest_run) (omega arith)

find_closest_complete_example : Mem carol (find_closest (key_from 129) with_carol)
find_closest_complete_example =
    find_closest_complete (key_from 129) with_carol 7 carol carol_far few_found (omega arith)
      carol_stored

find_successor-Successor_example :
    Successor
      (key_from 129)
      (find_closest (key_from 129) with_carol)
      (find_successor (key_from 129) with_carol)
find_successor-Successor_example = find_successor-Successor (key_from 129) with_carol

-- Only the bucket at distance 7 has a contact, and the zero value of the first slot is returned.
few_contacts_run :
    few_contacts (from_some own_node (add_contact carol own_node)) ≡ zero_contact ∷ []
unfolding distance leading_zeros leading_zeros_from xor xor_bits leading_zeros8 new_routing_table
    add_contact put_bucket add_to_bucket find_key push up up_from key_beq less_at less swap
    few_contacts best_contacts peek
few_contacts_run = refl

few_contacts_lem_example :
    (length (few_contacts with_carol) ≡ filled with_carol.routing_table.buckets)
    × ((j : ℕ) (b : KBucket)
        → j < filled with_carol.routing_table.buckets
        → get_elem? with_carol.routing_table.buckets j ≡ some b
        → get_elem? (few_contacts with_carol) j ≡ some (slot b))
few_contacts_lem_example = few_contacts_lem with_carol

-- A contact that runs as a server is converted to its address.
abbrev to_api : Contact → Option String
to_api c = if c.server_mode then some c.addr else none

-- A contact that cannot be converted.
abbrev dave : Contact
dave = record (contact_of 130 4) { server_mode = false }

abbrev with_dave : Node
with_dave = from_some with_alice (add_contact dave with_alice)

get_contacts_request_run : get_contacts_request to_api (key_from 129) with_dave ≡ some (none ∷ [])
unfolding distance leading_zeros leading_zeros_from xor xor_bits leading_zeros8 new_routing_table
    add_contact put_bucket add_to_bucket find_key push up up_from key_beq less_at less swap
    find_closest gather beside contacts_at get_contacts get_contacts_request reply_contacts to_kkey
get_contacts_request_run = refl

-- Bob joins a node that knows Alice.
only_bob : (c : Contact) → some (some bob) ≡ some (some c) → IsKey c.key
only_bob c e = subst (λ (x : Contact). IsKey x.key) (some_inj (some_inj e)) bob-IsKey

join-Replied_example :
    Replied to_api
      (some "own")
      (some (some bob))
      with_alice
      (join to_api (some "own") (some (some bob)) with_alice)
join-Replied_example =
    join-Replied to_api (some "own") (some (some bob)) with_alice only_bob with_alice-IsTable
