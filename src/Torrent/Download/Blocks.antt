-- ===== src/Torrent/Download/Blocks.antt =====
-- What piece messages do to the buffer and to the count of bytes.
use go_distributed_system.Base.{
  ℕ, zero, suc, ◌+◌, ◌^◌, ◌<◌, ◌≤◌, ◌≡◌, refl, ◌∙◌, ap, pos, ◌-ℤ◌, true, some, List, [], ◌∷◌, ◌++◌,
  length, nat_beq, arith,
}
use go_distributed_system.Torrent.Bytes.{copy_at, put_uint32, uint32, uint32-put_uint32}
use go_distributed_system.Torrent.Message.{Message, msg_piece, parse_piece}
use go_distributed_system.Torrent.Download.{PieceProgress, handle_message}

-- The message that brings the data of a block.
unfoldable pub piece_message : ℕ → ℕ → List ℕ → Message
piece_message index begin data_bytes = record {
  id = msg_piece;
  payload = put_uint32 index ++ put_uint32 begin ++ data_bytes;
}

module _ (index begin : ℕ) (data_bytes : List ℕ) (small_index : index < 2 ^ 32)
    (small_begin : begin < 2 ^ 32) where
  parse_piece-piece_message :
      (buf : List ℕ)
      → begin < length buf
      → begin + length data_bytes ≤ length buf
      → parse_piece index buf (piece_message index begin data_bytes)
        ≡ some (length data_bytes, copy_at begin data_bytes buf)
  unfolding parse_piece piece_message put_uint32
  parse_piece-piece_message buf lt le =
      let at_index : uint32 (put_uint32 index ++ put_uint32 begin ++ data_bytes) ≡ some index =
        uint32-put_uint32 index (put_uint32 begin ++ data_bytes) ∙ ap some (omega arith) in
      let at_begin : uint32 (put_uint32 begin ++ data_bytes) ≡ some begin =
        uint32-put_uint32 begin data_bytes ∙ ap some (omega arith) in
      let same : nat_beq index index ≡ true = ground arith in
      rw (at_index, at_begin, same) (ground arith)

  -- A piece message in the range of the buffer writes its data there and counts it.
  pub handle_piece :
      (state : PieceProgress)
      → state.index ≡ index
      → begin < length state.buf
      → begin + length data_bytes ≤ length state.buf
      → handle_message (piece_message index begin data_bytes) state
        ≡ some (record state {
          buf = copy_at begin data_bytes state.buf;
          downloaded = state.downloaded + length data_bytes;
          backlog = state.backlog -ℤ pos 1;
        })
  unfolding handle_message piece_message
  handle_piece state own lt le = rw (own, parse_piece-piece_message state.buf lt le) refl

copy_at_twice :
    (at : ℕ) (src dst : List ℕ) → copy_at at src (copy_at at src dst) ≡ copy_at at src dst
unfolding copy_at
copy_at_twice at src [] = refl
copy_at_twice zero [] (d ∷ dst) = refl
copy_at_twice zero (s ∷ src) (d ∷ dst) = ap (λ l. s ∷ l) (copy_at_twice zero src dst)
copy_at_twice (suc at) src (d ∷ dst) = ap (λ l. d ∷ l) (copy_at_twice at src dst)

pub length-copy_at : (at : ℕ) (src dst : List ℕ) → length (copy_at at src dst) ≡ length dst
unfolding copy_at
length-copy_at at src [] = refl
length-copy_at zero [] (d ∷ dst) = refl
length-copy_at zero (s ∷ src) (d ∷ dst) = ap suc (length-copy_at zero src dst)
length-copy_at (suc at) src (d ∷ dst) = ap suc (length-copy_at at src dst)

-- A piece message for the piece at hand, whose index and begin fit 32 bits and whose data fit the
-- buffer from there, is accepted, and accepted again: the second time it leaves the buffer as it
-- is, but the data are counted both times.
pub handle_piece_twice :
    (index begin : ℕ) (data_bytes : List ℕ) (state : PieceProgress)
    → index < 2 ^ 32
    → begin < 2 ^ 32
    → state.index ≡ index
    → begin < length state.buf
    → begin + length data_bytes ≤ length state.buf
    → (once : PieceProgress) × (twice : PieceProgress) × (handle_message
          (piece_message index begin data_bytes)
          state
        ≡ some once)
      × (handle_message (piece_message index begin data_bytes) once ≡ some twice)
      × (twice.buf ≡ once.buf)
      × (once.downloaded ≡ state.downloaded + length data_bytes)
      × (twice.downloaded ≡ once.downloaded + length data_bytes)
handle_piece_twice index begin data_bytes state small_index small_begin own lt le =
    let kept = length-copy_at begin data_bytes state.buf in
    let once = handle_piece index begin data_bytes small_index small_begin state own lt le in
    let twice =
      handle_piece index begin data_bytes small_index small_begin
        (record state {
          buf = copy_at begin data_bytes state.buf;
          downloaded = state.downloaded + length data_bytes;
          backlog = state.backlog -ℤ pos 1;
        })
        own (omega (arith, kept)) (omega (arith, kept)) in
    (_, _, once, twice, copy_at_twice begin data_bytes state.buf, refl, refl)
