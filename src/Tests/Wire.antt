-- ===== src/Tests/Wire.antt =====
-- The wire formats of torrent-client at concrete bytes.
use go_distributed_system.Base.{ℕ, ◌≡◌, some, List, [], ◌∷◌, ◌++◌, arith}
use go_distributed_system.Torrent.Message.{Message, serialize, read}
use go_distributed_system.Torrent.Message.RoundTrip.{read-serialize}

abbrev have_nine : Message
have_nine = record { id = 4; payload = 0 ∷ 0 ∷ 0 ∷ 9 ∷ [] }

read-serialize_example :
    (bytes : List ℕ) × (serialize (some have_nine) ≡ some bytes)
    × (read (bytes ++ 7 ∷ []) ≡ some (some have_nine, 7 ∷ []))
read-serialize_example = read-serialize (some have_nine) (7 ∷ []) (omega arith)
