-- ===== src/Goraft/Disk.antt =====
-- goraft/raft.go: `persist` and `restore`, which keep the term, the vote and the log in the metadata
-- file. Writes and reads of the file do not fail here: where one does, the source panics. The buffered
-- writer is flushed before `persist` returns.
pub mod Bytes
pub mod Slots
pub mod Restart
pub mod Restore
pub mod Recovery
pub mod Padded
pub mod Invariant
pub mod Appended
pub mod Fresh
use go_distributed_system.Base.{
  ℕ, zero, suc, ◌+◌, ◌-◌, ◌*◌, ◌/◌, ◌%◌, Bool, true, false, ◌&&◌, Option, none, some, List, [], ◌∷◌,
  ◌++◌, length, get_elem?, set, take, drop, replicate, leb, ltb, nat_beq, if◌then◌else◌, ◌>>=◌,
}
use go_distributed_system.Torrent.Bytes.{copy_at}
use go_distributed_system.Goraft.State.{
  Entry, ClusterMember, MetadataFile, Server, Clock, max, new_server, reset_election_timeout,
  ensure_log, set_voted_for, get_voted_for,
}

abbrev pub entry_header : ℕ
entry_header = 16

abbrev pub entry_size : ℕ
entry_size = 128

-- n bytes of a number, the lowest first: `binary.LittleEndian.PutUint64` for n = 8.
unfoldable pub le_bytes : ℕ → ℕ → List ℕ
le_bytes zero v = []
le_bytes (suc n) v = v % 256 ∷ le_bytes n (v / 256)

-- `binary.LittleEndian.Uint64` of 8 bytes.
unfoldable pub le_value : List ℕ → ℕ
le_value [] = 0
le_value (b ∷ bs) = b + 256 * le_value bs

-- What the page has behind its 24 bytes.
unfoldable pub page_rest : List ℕ
page_rest = replicate 4072 0

-- The page: the term, the vote, the length of the log, and zeros.
unfoldable pub page_of : ℕ → ℕ → ℕ → List ℕ
page_of term vote len = le_bytes 8 term ++ (le_bytes 8 vote ++ (le_bytes 8 len ++ page_rest))

-- The number of entries that is written: all where none is new.
unfoldable pub new_count : Bool → ℕ → List Entry → ℕ
new_count write_log n_new_entries log =
    if nat_beq n_new_entries 0 && write_log then length log else n_new_entries

-- `entryBytes` after an entry is put into it. What an entry before has left behind a shorter command
-- stays there.
unfoldable pub put_entry : Entry → List ℕ → List ℕ
put_entry e buf =
    copy_at entry_header e.command
      (copy_at 8 (le_bytes 8 (length e.command)) (copy_at 0 (le_bytes 8 e.term) buf))

-- A slot behind the end of the file leaves slots of zeros before it.
unfoldable pub put_slot : ℕ → List ℕ → List (List ℕ) → List (List ℕ)
put_slot zero b [] = b ∷ []
put_slot zero b (s ∷ ss) = b ∷ ss
put_slot (suc i) b [] = replicate entry_size 0 ∷ put_slot i b []
put_slot (suc i) b (s ∷ ss) = s ∷ put_slot i b ss

-- The loop that writes the entries from slot i on.
unfoldable pub write_entries : ℕ → List Entry → List ℕ → List (List ℕ) → Option (List (List ℕ))
write_entries i [] buf slots = some slots
write_entries i (e ∷ es) buf slots =
    let bytes = put_entry e buf in
    let rest = write_entries (suc i) es bytes (put_slot i bytes slots) in
    if ltb (entry_size - entry_header) (length e.command) then none else rest

-- The index of the first entry that is written.
unfoldable pub new_log_offset : List Entry → ℕ → ℕ
new_log_offset log n_new_entries = length log - n_new_entries

-- What becomes of the slots.
unfoldable pub write_slots : Bool → ℕ → List Entry → List (List ℕ) → Option (List (List ℕ))
write_slots write_log n_new_entries log slots =
    let n = new_count write_log n_new_entries log in
    let offset = new_log_offset log n in
    if write_log && ltb 0 n
    then write_entries offset (drop offset log) (replicate entry_size 0) slots
    else some slots

module _ {M : Type 0} where
  unfoldable pub persist : Bool → ℕ → Server M → Option (Server M)
  persist write_log n_new_entries s = do
    vote ← get_voted_for s
    slots ← write_slots write_log n_new_entries s.log s.fd.slots
    some (record s {
      fd = record { page = some (page_of s.current_term vote (length s.log)); slots = slots };
    })

-- The entry of a slot. Its command must lie in the slot.
unfoldable pub read_entry : List ℕ → Option Entry
read_entry bytes =
    let len_value = le_value (take 8 (drop 8 bytes)) in
    if leb (entry_header + len_value) entry_size
    then some (record {
      term = le_value (take 8 bytes);
      command = take len_value (drop entry_header bytes);
      result = none;
    })
    else none

-- The loop that reads n entries; the end of the file before the last is a panic.
unfoldable pub read_entries : ℕ → List (List ℕ) → Option (List Entry)
read_entries zero slots = some []
read_entries (suc n) [] = none
read_entries (suc n) (bytes ∷ slots) = do
  e ← read_entry bytes
  es ← read_entries n slots
  some (e ∷ es)

module _ {M : Type 0} where
  -- `restore` where the page is read.
  unfoldable pub restore_page : List ℕ → Server M → Option (Server M)
  restore_page page s = do
    s' ←
        set_voted_for (le_value (take 8 (drop 8 page)))
          (record s { current_term = le_value (take 8 page) })
    log ← read_entries (le_value (take 8 (drop 16 page))) s.fd.slots
    some (ensure_log (record s' { log = log }))

  unfoldable pub restore : Server M → Option (Server M)
  restore s = elim s.fd.page [ none ↦ some (ensure_log s) | some page ↦ restore_page page s ]

  -- `NewServer`, and `Start` up to its loop.
  unfoldable pub start : List ClusterMember → M → MetadataFile → ℕ → Clock → Option (Server M)
  start cluster_config statemachine fd cluster_index clock = do
    s ← new_server cluster_config statemachine fd cluster_index
    s' ← restore s
    some (reset_election_timeout clock s')
