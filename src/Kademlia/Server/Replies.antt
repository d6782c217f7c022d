-- ===== src/Kademlia/Server/Replies.antt =====
-- What the handlers answer.
use go_distributed_system.Base.{
  ℕ, zero, suc, ◌≡◌, ◌≢◌, inl, inr, refl, sym, subst, Option, none, some, List, [], ◌∷◌, get_elem?,
  Option-cases, some_inj, >>=-eq-some, arith,
}
use go_distributed_system.Kademlia.Key.{to_kkey}
use go_distributed_system.Kademlia.Key.Metric.{IsKey}
use go_distributed_system.Kademlia.Bucket.{Contact}
use go_distributed_system.Kademlia.Table.{Node, few_contacts, find_closest}
use go_distributed_system.Kademlia.Table.Buckets.{IsTable, Stored, add_contact-Stored}
use go_distributed_system.Kademlia.Server.{
  reply_contacts, get_contacts_request, join_contacts, Joined, invalid, panic, accepted, join,
}

module _ {A : Type 0} (api_contact : Contact → Option A) where
  nil_first :
      (nodes : List (Option A)) {n : Option A}
      → ((k : ℕ) → get_elem? nodes k ≡ some n → n ≡ none)
      → (i : ℕ) → get_elem? (none ∷ nodes) i ≡ some n
      → n ≡ none
  nil_first nodes rest zero at_i = sym (some_inj at_i)
  nil_first nodes rest (suc i) at_i = rest i at_i

  reply_failed :
      (contact : Contact) (rest : List Contact)
      → api_contact contact ≡ none
      → reply_contacts api_contact (contact ∷ rest) ≡ none ∷ reply_contacts api_contact rest
  unfolding reply_contacts
  reply_failed contact rest e = rw (e, reply_contacts)

  reply_converted :
      (contact : Contact) (rest : List Contact) {c : A}
      → api_contact contact ≡ some c
      → reply_contacts api_contact (contact ∷ rest) ≡ reply_contacts api_contact rest
  unfolding reply_contacts
  reply_converted contact rest e = rw (e, reply_contacts)

  reply_contacts_nil :
      (contacts : List Contact) (i : ℕ) (n : Option A)
      → get_elem? (reply_contacts api_contact contacts) i ≡ some n
      → n ≡ none
  unfolding reply_contacts
  reply_contacts_nil [] i n at_i = ground arith
  reply_contacts_nil (contact ∷ rest) i n at_i = elim (Option-cases (api_contact contact)) [
    | inl e ↦
        nil_first _ (λ k. reply_contacts_nil rest k n) i
          (subst (λ l. get_elem? l i ≡ some n) (reply_failed contact rest e) at_i)
    | inr (d, e) ↦
        reply_contacts_nil rest i n
          (subst (λ l. get_elem? l i ≡ some n) (reply_converted contact rest e) at_i)
  ]

  -- No contact reaches the client of `GetContacts`: at no place of its reply stands another value
  -- than nil.
  pub get_contacts_request-nil :
      (target_id : List ℕ) (node : Node) (reply : List (Option A)) (i : ℕ) (c : A)
      → get_contacts_request api_contact target_id node ≡ some reply
      → get_elem? reply i ≢ some (some c)
  unfolding get_contacts_request
  get_contacts_request-nil target_id node reply i c e at_i =
      let (target, _, same) =
        >>=-eq-some (to_kkey target_id)
          (λ t. some (reply_contacts api_contact (find_closest t node))) e in
      let nil : some c ≡ none =
        reply_contacts_nil (find_closest target node) i (some c)
          (subst (λ r. get_elem? r i ≡ some (some c)) (sym (some_inj same)) at_i) in
      cc

  -- The contacts that can be converted, in their order, without the others.
  pub data Converted : List Contact → List A → Type 0 where
    none_left : Converted [] []
    converts :
        (contact : Contact) (c : A) (rest : List Contact) (nodes : List A)
        → api_contact contact ≡ some c
        → Converted rest nodes
        → Converted (contact ∷ rest) (c ∷ nodes)
    left_out :
        (contact : Contact) (rest : List Contact) (nodes : List A)
        → api_contact contact ≡ none
        → Converted rest nodes
        → Converted (contact ∷ rest) nodes

  join_contacts-Converted :
      (contacts : List Contact) → Converted contacts (join_contacts api_contact contacts)
  unfolding join_contacts
  join_contacts-Converted [] = none_left
  join_contacts-Converted (contact ∷ rest) =
      let nodes = join_contacts api_contact rest in
      let others = join_contacts-Converted rest in
      elim (Option-cases (api_contact contact)) [
        | inl e ↦ rw (e, join_contacts) (left_out contact rest nodes e others)
        | inr (c, e) ↦ rw (e, join_contacts) (converts contact c rest nodes e others)
      ]

  -- How `Join` answers.
  pub data Replied (self : Option A) (sender : Option (Option Contact)) (node : Node)
      : Joined api_contact → Type 0 where
    without_self : sender ≡ none → Replied self sender node panic
    no_contact : sender ≡ some none → Replied self sender node invalid
    own_key :
        (c : Contact) → sender ≡ some (some c) → c.key ≡ node.key → Replied self sender node panic
    stores :
        (c : Contact) (node' : Node) (nodes : List A)
        → sender ≡ some (some c)
        → c.key ≢ node.key
        → Stored c node node'
        → Converted (few_contacts node) nodes
        → Replied self sender node (accepted node' self nodes)

  -- With a table in order, and a contact whose key has 18 bytes where it has one, the handler `Join`
  -- panics on a message without `Self` and on one with the node's own key, and answers with an
  -- error where `Self` is no contact. In every other case it adds the contact to the table, and
  -- replies the node's own contact and those that `FewContacts` returned before, in their order,
  -- without the ones that cannot be converted.
  pub join-Replied :
      (self : Option A) (sender : Option (Option Contact)) (node : Node)
      → ((c : Contact) → sender ≡ some (some c) → IsKey c.key)
      → IsTable node
      → Replied self sender node (join api_contact self sender node)
  unfolding join
  join-Replied self none node ok t = without_self refl
  join-Replied self (some none) node ok t = no_contact refl
  join-Replied self (some (some c)) node ok t = elim (add_contact-Stored c node (ok c refl) t) [
    | inl (same, e) ↦ rw (e, join) (own_key c refl same)
    | inr (ne, (node', e, stored)) ↦
        rw (e, join) (stores c node' _ refl ne stored (join_contacts-Converted (few_contacts node)))
  ]
