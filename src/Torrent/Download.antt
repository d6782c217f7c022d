-- ===== src/Torrent/Download.antt =====
-- torrent-client/p2p/p2p.go: how one piece is downloaded from one peer, and
-- torrent-client/bitfield/bitfield.go. What the connection does is an argument: which of the requests
-- can be written, by where they begin, and what each read gives.
pub mod Bitfield
pub mod Requests
pub mod Blocks
pub mod Complete
use go_distributed_system.Base.{
  ℕ, zero, suc, ◌+◌, ◌-◌, ◌*◌, ◌/◌, ◌%◌, ◌^◌, ℤ, pos, ◌+ℤ◌, ◌-ℤ◌, Bool, true, false, not, ◌&&◌,
  Option, none, some, List, [], ◌∷◌, length, get_elem?, set, replicate, ltb, ltb_ℤ, nat_beq,
  if◌then◌else◌, ◌>>=◌,
}
use go_distributed_system.Torrent.Message.{Message, msg_have, msg_piece, parse_piece, parse_have}

abbrev pub msg_choke : ℕ
msg_choke = 0

abbrev pub msg_unchoke : ℕ
msg_unchoke = 1

abbrev pub max_block_size : ℕ
max_block_size = 16384

abbrev pub max_backlog : ℕ
max_backlog = 5

-- `HasPiece`
unfoldable pub has_piece : List ℕ → ℕ → Bool
has_piece bf index = elim (get_elem? bf (index / 8)) [
  | none ↦ false
  | some b ↦ not (nat_beq (b / 2 ^ (7 - index % 8) % 2) 0)
]

-- `SetPiece`: the bit is added where it is not set.
unfoldable pub set_piece : List ℕ → ℕ → List ℕ
set_piece bf index = elim (get_elem? bf (index / 8)) [
  | none ↦ bf
  | some b ↦ if has_piece bf index then bf else set bf (index / 8) (b + 2 ^ (7 - index % 8))
]

-- What the download of a piece reads and writes of its client.
pub record Client : Type 0 where
  pub choked : Bool
  pub bitfield : List ℕ

pub record PieceProgress : Type 0 where
  pub index : ℕ
  pub client : Client
  pub buf : List ℕ
  pub downloaded : ℕ
  pub requested : ℕ
  pub backlog : ℤ

-- What a read of the connection gives.
pub data Input : Type 0 where
  broken : Input
  keep_alive : Input
  received : Message → Input

-- A message that is neither a keep-alive nor an error; `none` is an error.
unfoldable pub handle_message : Message → PieceProgress → Option PieceProgress
handle_message msg state =
    if nat_beq msg.id msg_unchoke
    then some (record state { client = record state.client { choked = false } })
    else if nat_beq msg.id msg_choke
    then some (record state { client = record state.client { choked = true } })
    else if nat_beq msg.id msg_have
    then (do
      index ← parse_have msg
      some (record state {
        client = record state.client { bitfield = set_piece state.client.bitfield index };
      }))
    else if nat_beq msg.id msg_piece
    then (do
      (n, buf) ← parse_piece state.index state.buf msg
      some (record state {
        buf = buf;
        downloaded = state.downloaded + n;
        backlog = state.backlog -ℤ pos 1;
      }))
    else some state

-- `readMessage`
unfoldable pub read_message : Input → PieceProgress → Option PieceProgress
read_message broken state = none
read_message keep_alive state = some state
read_message (received msg) state = handle_message msg state

-- The part of the piece that a request asks for.
pub record Block : Type 0 where
  pub begin : ℕ
  pub size : ℕ

-- The size of the next block, which might be the last.
unfoldable pub block_size : ℕ → ℕ → ℕ
block_size length requested =
    if ltb (length - requested) max_block_size then length - requested else max_block_size

-- The loop that sends requests, with the blocks that were asked for; each round asks for at least
-- one byte, so that the length of the piece is enough fuel. `none` is an error.
unfoldable pub request_blocks :
    ℕ → (ℕ → Bool) → ℕ → PieceProgress → Option (PieceProgress × List Block)
request_blocks zero can_write length state = some (state, [])
request_blocks (suc fuel) can_write length state =
    let size = block_size length state.requested in
    let rest =
      request_blocks fuel can_write length
        (record state { backlog = state.backlog +ℤ pos 1; requested = state.requested + size }) in
    if ltb_ℤ state.backlog (pos max_backlog) && ltb state.requested length
    then (if can_write state.requested
        then (do
          (state', blocks) ← rest
          some (state', record { begin = state.requested; size = size } ∷ blocks))
        else none)
    else some (state, [])

-- The requests of one round of the outer loop: none while the peer chokes.
unfoldable pub send_requests : (ℕ → Bool) → ℕ → PieceProgress → Option (PieceProgress × List Block)
send_requests can_write length state =
    if not state.client.choked
    then request_blocks length can_write length state
    else some (state, [])

-- How an attempt stands after the reads that are given.
pub data Attempt : Type 0 where
  done : List ℕ → Attempt
  failed : Attempt
  waiting : PieceProgress → Attempt

-- The outer loop, over what the reads give.
unfoldable pub download_from : (ℕ → Bool) → ℕ → List Input → PieceProgress → Attempt
download_from can_write length [] state =
    if ltb state.downloaded length
    then elim (send_requests can_write length state) [ none ↦ failed | some r ↦ waiting r.0 ]
    else done state.buf
download_from can_write length (input ∷ inputs) state =
    if ltb state.downloaded length
    then elim (send_requests can_write length state) [
      | none ↦ failed
      | some r ↦ elim (read_message input r.0) [
        | none ↦ failed
        | some state' ↦ download_from can_write length inputs state'
      ]
    ]
    else done state.buf

-- `attemptDownloadPiece`
unfoldable pub attempt_download_piece : (ℕ → Bool) → ℕ → ℕ → Client → List Input → Attempt
attempt_download_piece can_write index length client inputs =
    download_from can_write length inputs (record {
      index = index;
      client = client;
      buf = replicate length 0;
      downloaded = 0;
      requested = 0;
      backlog = pos 0;
    })

-- `calculateBoundsForPiece`
unfoldable pub bounds_for_piece : ℕ → ℕ → ℕ → ℕ × ℕ
bounds_for_piece piece_length length index =
    let begin = index * piece_length in
    let end = begin + piece_length in (begin, if ltb length end then length else end)

-- `calculatePieceSize`; it is negative for a piece behind the end.
unfoldable pub piece_size : ℕ → ℕ → ℕ → ℤ
piece_size piece_length length index =
    let (begin, end) = bounds_for_piece piece_length length index in pos end -ℤ pos begin
