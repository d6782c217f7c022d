-- ===== src/Tests/Download.antt =====
-- The download of a piece of 3 bytes.
use go_distributed_system.Base.{
  ℕ, pos, ◌+◌, ◌≡◌, refl, false, some, List, [], ◌∷◌, map, replicate, arith,
}
use go_distributed_system.Torrent.Download.{
  PieceProgress, Client, Block, block_size, request_blocks, send_requests, handle_message, done,
  attempt_download_piece,
}
use go_distributed_system.Torrent.Download.Requests.{Requested, send_requests-Requested}
use go_distributed_system.Torrent.Download.Blocks.{piece_message, handle_piece_twice}
use go_distributed_system.Torrent.Download.Complete.{
  writable, block_message, attempt_download_piece-in_order,
}

abbrev client : Client
client = record { choked = false; bitfield = 255 ∷ [] }

abbrev piece : List ℕ
piece = 10 ∷ 20 ∷ 30 ∷ []

abbrev blocks : List Block
blocks = record { begin = 0; size = 2 } ∷ record { begin = 2; size = 1 } ∷ []

attempt_download_piece-in_order_example :
    attempt_download_piece writable 4 3 client
      (map (block_message 4 piece (omega arith) (omega arith)) blocks)
    ≡ done piece
attempt_download_piece-in_order_example =
    attempt_download_piece-in_order 4 piece (omega arith) (omega arith) client blocks
      (refl, omega arith, omega arith, (refl, omega arith, omega arith, refl))

-- Piece 4, of 40000 bytes, before the first request.
abbrev start : PieceProgress
start = record {
  index = 4;
  client = client;
  buf = replicate 6 0;
  downloaded = 0;
  requested = 0;
  backlog = pos 0;
}

abbrev asked : PieceProgress
asked = record start { requested = 40000; backlog = pos 3 }

abbrev asked_blocks : List Block
asked_blocks =
    record { begin = 0; size = 16384 }
    ∷ record { begin = 16384; size = 16384 }
    ∷ record { begin = 32768; size = 7232 }
    ∷ []

send_requests-Requested_example : Requested 40000 start asked asked_blocks
unfolding send_requests request_blocks block_size
send_requests-Requested_example =
    send_requests-Requested writable 40000 start asked asked_blocks refl (omega arith) refl

handle_piece_twice_example :
    (once : PieceProgress) × (twice : PieceProgress) × (handle_message
        (piece_message 4 0 (10 ∷ 20 ∷ []))
        start
      ≡ some once)
    × (handle_message (piece_message 4 0 (10 ∷ 20 ∷ [])) once ≡ some twice)
    × (twice.buf ≡ once.buf)
    × (once.downloaded ≡ 0 + 2)
    × (twice.downloaded ≡ once.downloaded + 2)
handle_piece_twice_example =
    handle_piece_twice 4 0 (10 ∷ 20 ∷ []) start (omega arith) (omega arith) refl (omega arith)
      (omega arith)
