-- ===== src/Goraft/State.antt =====
-- goraft/raft.go: the types, and the helpers on the state of a server. `M` is the type of the states
-- of the user's state machine. A uint64 is a number below 2 ^ 64, and where the source adds to one or
-- takes from one the sum is taken modulo 2 ^ 64; a byte is a number below 256. `none` is a panic.
-- The addresses and connections of the members are left out, as is what is printed.
use go_distributed_system.Base.{
  ℕ, zero, suc, ◌+◌, ◌*◌, ◌%◌, ◌^◌, Option, none, some, List, [], ◌∷◌, get_elem?, set, ltb,
  if◌then◌else◌, ◌>>=◌,
}

-- `result` is the channel on which a caller of `Apply` waits, or nil.
pub record Entry : Type 0 where
  pub command : List ℕ
  pub term : ℕ
  pub result : Option ℕ

-- `Entry{}`
abbrev pub blank_entry : Entry
blank_entry = record { command = []; term = 0; result = none }

pub record ClusterMember : Type 0 where
  pub id : ℕ
  pub next_index : ℕ
  pub match_index : ℕ
  pub voted_for : ℕ

pub data ServerState : Type 0 where
  leader_state follower_state candidate_state : ServerState

-- The metadata file. It is written and read in a page of 4096 bytes, of which the first 24 are
-- used, and behind it in slots of 128 bytes, one for each entry. `none` is the page of an empty file.
pub record MetadataFile : Type 0 where
  pub page : Option (List ℕ)
  pub slots : List (List ℕ)

pub record Server (M : Type 0) : Type 0 where
  pub current_term : ℕ
  pub log : List Entry
  pub id : ℕ
  pub election_timeout : ℕ
  pub heartbeat_ms : ℕ
  pub heartbeat_timeout : ℕ
  pub statemachine : M
  pub fd : MetadataFile
  pub commit_index : ℕ
  pub last_applied : ℕ
  pub state : ServerState
  pub cluster : List ClusterMember
  pub cluster_index : ℕ

-- What a function reads of the world: the time, in nanoseconds, and the number that `rand.Intn` draws.
pub record Clock : Type 0 where
  pub now : ℕ
  pub draw : ℕ

-- `x + 1` and `x - 1` on a uint64.
unfoldable pub increment : ℕ → ℕ
increment x = (x + 1) % 2 ^ 64

unfoldable pub decrement : ℕ → ℕ
decrement x = (x + 18446744073709551615) % 2 ^ 64

-- The generic `max`.
abbrev pub max : ℕ → ℕ → ℕ
max a b = if ltb b a then a else b

-- The copy of the cluster in `NewServer`: the id 0 is a panic.
unfoldable pub copy_cluster : List ClusterMember → Option (List ClusterMember)
copy_cluster [] = some []
copy_cluster (c ∷ cs) = elim c.id [
  | zero ↦ none
  | suc _ ↦ elim (copy_cluster cs) [ none ↦ none | some rest ↦ some (c ∷ rest) ]
]

-- `s.log[len(s.log)-1]`
unfoldable pub last_entry : List Entry → Option Entry
last_entry [] = none
last_entry (e ∷ l) = elim (last_entry l) [ none ↦ some e | some last ↦ some last ]

module _ {M : Type 0} where
  -- The literal in `NewServer`, as the follower that `Start` makes of it before it restores the file.
  abbrev pub initial_server : ℕ → List ClusterMember → M → MetadataFile → ℕ → Server M
  initial_server id cluster statemachine fd cluster_index = record {
    current_term = 0;
    log = [];
    id = id;
    election_timeout = 0;
    heartbeat_ms = 300;
    heartbeat_timeout = 0;
    statemachine = statemachine;
    fd = fd;
    commit_index = 0;
    last_applied = 0;
    state = follower_state;
    cluster = cluster;
    cluster_index = cluster_index;
  }

  unfoldable pub new_server : List ClusterMember → M → MetadataFile → ℕ → Option (Server M)
  new_server cluster_config statemachine fd cluster_index = do
    cluster ← copy_cluster cluster_config
    own ← get_elem? cluster cluster_index
    some (initial_server own.id cluster statemachine fd cluster_index)

  -- An empty log gets a blank entry.
  unfoldable pub ensure_log : Server M → Server M
  ensure_log s = elim s.log [ [] ↦ record s { log = blank_entry ∷ [] } | e ∷ l ↦ s ]

  unfoldable pub set_voted_for : ℕ → Server M → Option (Server M)
  set_voted_for id s = do
    own ← get_elem? s.cluster s.cluster_index
    some (record s { cluster = set s.cluster s.cluster_index (record own { voted_for = id }) })

  unfoldable pub get_voted_for : Server M → Option ℕ
  get_voted_for s = do own ← get_elem? s.cluster s.cluster_index; some own.voted_for

  unfoldable pub reset_election_timeout : Clock → Server M → Server M
  reset_election_timeout clock s = record s {
    election_timeout = clock.now + (clock.draw + s.heartbeat_ms * 2) * 1000000;
  }
