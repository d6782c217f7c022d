-- ===== src/Torrent/Peers.antt =====
-- torrent-client/peers/peers.go
use go_distributed_system.Base.{
  ℕ, zero, suc, ◌+◌, ◌/◌, ◌%◌, Option, none, some, List, [], ◌∷◌, ◌>>=◌, length, take, drop,
  nat_beq, not, if◌then◌else◌,
}
use go_distributed_system.Torrent.Bytes.{uint16}

pub record Peer : Type 0 where
  pub ip : List ℕ
  pub port : ℕ

-- The loop over the peers that are left, at the offset of the next.
unfoldable pub unmarshal_from : ℕ → ℕ → List ℕ → Option (List Peer)
unmarshal_from zero offset peers_bin = some []
unmarshal_from (suc left) offset peers_bin = do
  port ← uint16 (take 2 (drop (offset + 4) peers_bin))
  rest ← unmarshal_from left (offset + 6) peers_bin
  some (record { ip = take 4 (drop offset peers_bin); port = port } ∷ rest)

unfoldable pub unmarshal : List ℕ → Option (List Peer)
unmarshal peers_bin =
    if not (nat_beq (length peers_bin % 6) 0)
    then none
    else unmarshal_from (length peers_bin / 6) 0 peers_bin
