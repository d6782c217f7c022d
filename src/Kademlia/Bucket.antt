-- ===== src/Kademlia/Bucket.antt =====
-- Contacts and the buckets of kademlia/routing.go and kademlia/type.go: heaps of at most 20 contacts,
-- ordered by start time and round-trip time. The ECDSA keys and the RPC client of a contact, which
-- the routing table only carries along, are left out.
pub mod Order
pub mod Contents
pub mod Removal
use go_distributed_system.Base.{
  ℕ, zero, suc, ℤ, Bool, Option, none, some, List, [], ◌∷◌, length, get_elem?, set, ltb, ltb_ℤ,
  int_beq, if◌then◌else◌, String, ◌==◌,
}
use go_distributed_system.Kademlia.Key.{KKey, key_eq}
use go_distributed_system.Kademlia.Heap.{push, pop, remove, fix}

-- The number of contacts in each bucket.
abbrev pub const_k : ℕ
const_k = 20

pub record Contact : Type 0 where
  pub key : KKey
  pub addr : String
  pub domain : String
  pub id : String
  pub start_time : ℤ
  pub rtt : ℤ
  pub server_mode : Bool

-- `ContactHeap.Less`
unfoldable pub less : Contact → Contact → Bool
less a b =
    if int_beq a.start_time b.start_time then ltb_ℤ a.rtt b.rtt else ltb_ℤ b.start_time a.start_time

pub record KBucket : Type 0 where
  pub contacts : List Contact

-- The first index at which a contact with the key stands.
unfoldable pub find_key : KKey → List Contact → Option ℕ
find_key k [] = none
find_key k (contact ∷ h) =
    let rest = find_key k h in
    if contact.key == k then some 0 else elim rest [ none ↦ none | some i ↦ some (suc i) ]

-- `ContactHeap.Remove`
unfoldable pub remove_key : KKey → List Contact → List Contact
remove_key k h = elim (find_key k h) [ none ↦ h | some i ↦ remove less i h ]

-- `ContactHeap.Peek`; `none` is nil.
unfoldable pub peek : List Contact → Option Contact
peek [] = none
peek (contact ∷ h) = some contact

-- `KBucket.AddContact`
unfoldable pub add_to_bucket : Contact → KBucket → KBucket
add_to_bucket c b = elim (find_key c.key b.contacts) [
  | some i ↦ record { contacts = fix less i (set b.contacts i c) }
  | none ↦
      if ltb (length b.contacts) const_k
      then record { contacts = push less c b.contacts }
      else record { contacts = push less c (pop less b.contacts) }
]

unfoldable pub get_contacts : KBucket → List Contact
get_contacts b = b.contacts
