-- ===== src/Goraft/Disk/Fresh.antt =====
-- goraft/raft.go: a server that starts on an empty file.
use go_distributed_system.Base.{
  ℕ, ◌^◌, ◌<◌, ◌≡◌, inl, refl, none, some, List, [], ◌∷◌, get_elem?, get_elem?-lt, arith,
}
use go_distributed_system.Goraft.State.{
  blank_entry, ClusterMember, MetadataFile, Server, Clock, copy_cluster, initial_server, new_server,
  ensure_log, get_voted_for, reset_election_timeout,
}
use go_distributed_system.Goraft.Disk.{le_value, read_entry, restore, start}
use go_distributed_system.Goraft.Disk.Slots.{Holds}
use go_distributed_system.Goraft.Disk.Padded.{zero_slot, padded}
use go_distributed_system.Goraft.Disk.Invariant.{Kept}

abbrev pub empty_file : MetadataFile
empty_file = record { page = none; slots = [] }

pub zero_slot-Holds : Holds (zero_slot ∷ []) 0 blank_entry
unfolding read_entry le_value
zero_slot-Holds = (zero_slot, refl, refl)

module _ {M : Type 0} where
  -- A server that starts on an empty file keeps the invariant, where the cluster has its index, and its
  -- id and its vote there are uint64s.
  pub start-Kept :
      (config cluster : List ClusterMember) (own : ClusterMember) (m : M) (i : ℕ) (clock : Clock)
      → copy_cluster config ≡ some cluster
      → get_elem? cluster i ≡ some own
      → own.id < 2 ^ 64
      → own.voted_for < 2 ^ 64
      → (s : Server M) × (start config m empty_file i clock ≡ some s) × Kept s
  unfolding start restore ensure_log reset_election_timeout get_voted_for padded new_server
  start-Kept config cluster own m i clock copied at_i id_word vote_word =
      let s : Server M =
        reset_election_timeout clock
          (record (initial_server own.id cluster m empty_file i) { log = blank_entry ∷ [] }) in
      (
        s,
        rw (new_server, copied, at_i),
        record {
          sound = record {
            words = record {
              term_word = omega arith;
              vote = own.voted_for;
              vote_is = rw at_i;
              vote_word = vote_word;
              log_word = omega arith;
              entries_word = (omega arith, tt);
            };
            some_entry = omega arith;
            in_range = get_elem?-lt cluster i at_i;
            id_word = id_word;
          };
          page_is = inl refl;
          held = (zero_slot-Holds, tt);
        },
      )
