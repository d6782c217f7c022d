-- ===== src/Kv/Store/Laws.antt =====
-- What each operation of the store leaves to be read, and what it returns.
use go_distributed_system.Base.{
  ◌≡◌, ◌≢◌, String, true, lookup-insert, ◌==◌, string_eq, if◌then◌else◌, arith,
}
use Prim.Native.String.{◌++◌ as cat}
use text.Mathlib.TextEquality.{eq_iff}
use go_distributed_system.Kv.Store.{DataStore, get, put, append, cas}

-- After a put the key has the new value and every other key what it had; what is returned is what
-- a get of the key would have returned before.
pub get-put :
    (k j value : String) (ds : DataStore)
    → (get j (put k value ds).0 ≡ (if k == j then (value, true) else get j ds))
      × (((put k value ds).1, (put k value ds).2) ≡ get k ds)
unfolding get put
get-put k j value ds = (rw lookup-insert (ground (arith)), ground arith)

-- After an append the key has its old value, or the empty string, with the text behind it, and
-- every other key what it had; what is returned is what a get of the key would have returned
-- before.
pub get-append :
    (k j value : String) (ds : DataStore)
    → (get j (append k value ds).0 ≡ (if k == j then (cat (get k ds).0 value, true) else get j ds))
      × (((append k value ds).1, (append k value ds).2) ≡ get k ds)
unfolding get append
get-append k j value ds = (rw lookup-insert (ground arith), ground arith)

-- A compare-and-swap writes exactly if the key is there with the value compared; it returns what
-- was there before in any case.
pub get-cas :
    (k j compare value : String) (ds : DataStore)
    → ((get k ds ≡ (compare, true))
        → get j (cas k compare value ds).0 ≡ (if k == j then (value, true) else get j ds))
      × ((get k ds ≢ (compare, true)) → (cas k compare value ds).0 ≡ ds)
      × (((cas k compare value ds).1, (cas k compare value ds).2) ≡ get k ds)
unfolding get cas
get-cas k j compare value ds = (
  λ h. ground (arith, eq_iff compare compare, lookup-insert k j value ds.values),
  λ h. ground (arith, eq_iff (get k ds).0 compare),
  ground arith,
)
