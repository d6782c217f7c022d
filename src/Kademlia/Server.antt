-- ===== src/Kademlia/Server.antt =====
-- The handlers of kademlia/server.go that read the routing table. The conversions to and from the
-- types of the API, which marshal ECDSA keys, are parameters.
pub mod Replies
use go_distributed_system.Base.{ℕ, Option, none, some, List, [], ◌∷◌, ◌>>=◌}
use go_distributed_system.Kademlia.Key.{KKey, to_kkey}
use go_distributed_system.Kademlia.Bucket.{Contact}
use go_distributed_system.Kademlia.Table.{Node, add_contact, few_contacts, find_closest}

-- `none` is nil.
module _ {A : Type 0} (api_contact : Contact → Option A) where
  -- The loop of `GetContacts`: `append` under the test `err != nil`.
  unfoldable pub reply_contacts : List Contact → List (Option A)
  reply_contacts [] = []
  reply_contacts (contact ∷ rest) =
      let nodes = reply_contacts rest in
      elim (api_contact contact) [ none ↦ none ∷ nodes | some c ↦ nodes ]

  -- The handler `GetContacts`; `none` is the error on a key of a wrong length.
  unfoldable pub get_contacts_request : List ℕ → Node → Option (List (Option A))
  get_contacts_request target_id node = do
    target ← to_kkey target_id
    some (reply_contacts (find_closest target node))

  -- The loop of `Join`: `append` under the test `err == nil`.
  unfoldable pub join_contacts : List Contact → List A
  join_contacts [] = []
  join_contacts (contact ∷ rest) =
      let nodes = join_contacts rest in
      elim (api_contact contact) [ none ↦ nodes | some c ↦ c ∷ nodes ]

  -- What the handler `Join` does: an error, a panic, or the table, and the reply with the node's own
  -- contact and the others.
  pub data Joined : Type 0 where
    invalid : Joined
    panic : Joined
    accepted : Node → Option A → List A → Joined

  -- `self` is what the last two lines make of the node's own contact. A message without `Self` panics
  -- in the first line, and one whose `Self` is no contact is an error.
  unfoldable pub join : Option A → Option (Option Contact) → Node → Joined
  join self sender node = elim sender [
    | none ↦ panic
    | some converted ↦ elim converted [
      | none ↦ invalid
      | some c ↦
          let nodes = join_contacts (few_contacts node) in
          elim (add_contact c node) [ none ↦ panic | some node' ↦ accepted node' self nodes ]
    ]
  ]
