-- ===== src/Torrent/Handshake.antt =====
-- torrent-client/handshake/handshake.go. A string is the list of its bytes, and an array of 20
-- bytes a list of 20.
use go_distributed_system.Base.{
  ℕ, ◌+◌, ◌%◌, Option, none, some, List, [], ◌∷◌, ◌>>=◌, length, take, drop, replicate, nat_beq,
  if◌then◌else◌,
}
use go_distributed_system.Torrent.Bytes.{copy_at, read_full}

pub record Handshake : Type 0 where
  pub pstr : List ℕ
  pub info_hash : List ℕ
  pub peer_id : List ℕ

-- The bytes of "BitTorrent protocol".
abbrev pub protocol : List ℕ
protocol =
    66 ∷ 105 ∷ 116 ∷ 84 ∷ 111 ∷ 114 ∷ 114 ∷ 101 ∷ 110 ∷ 116 ∷ 32 ∷ 112 ∷ 114 ∷ 111 ∷ 116 ∷ 111 ∷ 99
    ∷ 111 ∷ 108 ∷ []

unfoldable pub new : List ℕ → List ℕ → Handshake
new info_hash peer_id = record { pstr = protocol; info_hash = info_hash; peer_id = peer_id }

-- `curr` advances by what `copy` returns, which is all of what is copied: the buffer has room.
unfoldable pub serialize : Handshake → List ℕ
serialize h =
    let n = length h.pstr in
    copy_at (n + 29) h.peer_id (
      copy_at (n + 9) h.info_hash (
        copy_at (n + 1) (replicate 8 0)
          (copy_at 1 h.pstr (copy_at 0 (n % 256 ∷ []) (replicate (n + 49) 0)))))

-- `lengthBuf[0]`
abbrev pub first_byte : List ℕ → ℕ
first_byte [] = 0
first_byte (b ∷ _) = b

-- The handshake and what the reader has after it; `none` is an error.
unfoldable pub read : List ℕ → Option (Handshake × List ℕ)
read r = do
  head ← read_full 1 r
  let n = first_byte head.0
  if nat_beq n 0 then none else do
    body ← read_full (48 + n) head.1
    some (
      record {
        pstr = take n body.0;
        info_hash = take 20 (drop (n + 8) body.0);
        peer_id = drop (n + 28) body.0;
      },
      body.1,
    )
