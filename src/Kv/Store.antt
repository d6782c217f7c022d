-- ===== src/Kv/Store.antt =====
-- raft/part5kv/kvservice/datastore.go. A method returns the new store with its two results; the
-- value of a key that is not there reads as the empty string.
pub mod Laws
use Prim.Native.String.{◌++◌ as cat}
use go_distributed_system.Base.{
  String, Bool, true, false, ◌&&◌, Option, none, some, Map, [], lookup, insert, ◌==◌, string_eq,
  if◌then◌else◌,
}

pub record DataStore : Type 0 where
  pub values : Map String String

abbrev pub new_data_store : DataStore
new_data_store = record { values = [] }

-- `value, ok := ds.data[key]`
abbrev pub comma_ok : Option String → String × Bool
comma_ok none = ("", false)
comma_ok (some v) = (v, true)

unfoldable pub get : String → DataStore → String × Bool
get key ds = comma_ok (lookup key ds.values)

unfoldable pub put : String → String → DataStore → DataStore × String × Bool
put key value ds =
    let (v, found) = comma_ok (lookup key ds.values) in
    (record { values = insert key value ds.values }, v, found)

unfoldable pub append : String → String → DataStore → DataStore × String × Bool
append key value ds =
    let (v, found) = comma_ok (lookup key ds.values) in
    (record { values = insert key (cat v value) ds.values }, v, found)

unfoldable pub cas : String → String → String → DataStore → DataStore × String × Bool
cas key compare value ds =
    let (prev, found) = comma_ok (lookup key ds.values) in
    (
      if found && prev == compare then record { values = insert key value ds.values } else ds,
      prev,
      found,
    )
