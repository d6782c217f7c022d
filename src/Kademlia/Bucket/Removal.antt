-- ===== src/Kademlia/Bucket/Removal.antt =====
-- What `Remove` and `Peek` of a bucket do.
use mathlib.Core.List.{Mem, Perm}
use go_distributed_system.Base.{
  ℕ, suc, ◌≡◌, ◌⊎◌, inl, inr, refl, subst, false, none, some, List, [], ◌∷◌, length, get_elem?, map,
  arith, get_elem?-lt,
}
use go_distributed_system.Kademlia.Key.{KKey, key_eq}
use go_distributed_system.Kademlia.Heap.{remove}
use go_distributed_system.Kademlia.Heap.Operations.{root-least}
use go_distributed_system.Kademlia.Bucket.{Contact, less, find_key, remove_key, peek}
use go_distributed_system.Kademlia.Bucket.Order.{
  less-Ranking, key_of, nowhere, at_index, find_key-Found,
}
use go_distributed_system.Kademlia.Bucket.Contents.{IsBucket, remove-IsBucket}

-- `Remove` takes the contact with the key out, if there is one, and no other.
pub data Removed (k : KKey) (h h' : List Contact) : Type 0 where
  absent : ¬ Mem k (map key_of h) → h' ≡ h → Removed k h h'
  taken :
      (old : Contact) → old.key ≡ k → ¬ Mem k (map key_of h') → Perm h (old ∷ h') → Removed k h h'

remove_key_absent : (k : KKey) (h : List Contact) → find_key k h ≡ none → remove_key k h ≡ h
unfolding remove_key
remove_key_absent k h e = rw (e, remove_key)

remove_key_present :
    (k : KKey) (h : List Contact) (i : ℕ) → find_key k h ≡ some i → remove_key k h ≡ remove less i h
unfolding remove_key
remove_key_present k h i e = rw (e, remove_key)

-- A bucket stays one when a key is removed; the contact with the key goes, and no other.
pub remove_key-Removed :
    (k : KKey) (h : List Contact)
    → IsBucket h
    → IsBucket (remove_key k h) × Removed k h (remove_key k h)
remove_key-Removed k h b = elim (find_key-Found k h) [
  | nowhere e free ↦ rw (remove_key_absent k h e) (b, absent free refl)
  | at_index i old e at_i own ↦
      let (b', same, _, free) = remove-IsBucket i h at_i b in
      rw (remove_key_present k h i e)
        (b', taken old own (subst (λ j. ¬ Mem j (map key_of (remove less i h))) own free) same)
]

-- `Peek` of a bucket in order gives a contact than which none in the bucket is less, and nil only
-- if the bucket is empty.
pub peek-least :
    (h : List Contact)
    → IsBucket h
    → ((peek h ≡ none) × (h ≡ []))
      ⊎ ((best : Contact) × (peek h ≡ some best)
          × ((m : ℕ) (a : Contact) → get_elem? h m ≡ some a → less a best ≡ false))
unfolding peek
peek-least [] b = inl (refl, refl)
peek-least (best ∷ h) b = inr (
  best,
  refl,
  λ m a at_m.
      root-least less-Ranking (suc (length h)) m (best ∷ h) (omega arith) b.ordered refl
        (get_elem?-lt (best ∷ h) m at_m) at_m,
)
