-- ===== src/Torrent/Message.antt =====
-- torrent-client/message/message.go. A message is its number and its payload; the nil message, a
-- keep-alive, is `none`. The number of a message is a byte, and a slice of bytes a list of them.
pub mod RoundTrip
use go_distributed_system.Base.{
  ℕ, ◌+◌, ◌%◌, ◌^◌, Option, none, some, List, [], ◌∷◌, ◌>>=◌, length, drop, replicate, leb, ltb,
  nat_beq, not, if◌then◌else◌,
}
use go_distributed_system.Torrent.Bytes.{copy_at, put_uint32, uint32, read_full}

pub record Message : Type 0 where
  pub id : ℕ
  pub payload : List ℕ

abbrev pub msg_have : ℕ
msg_have = 4

abbrev pub msg_request : ℕ
msg_request = 6

abbrev pub msg_piece : ℕ
msg_piece = 7

-- Each of the three is written in its own 4 bytes of the payload.
unfoldable pub format_request : ℕ → ℕ → ℕ → Message
format_request index begin len = record {
  id = msg_request;
  payload =
      copy_at 8 (put_uint32 len)
        (copy_at 4 (put_uint32 begin) (copy_at 0 (put_uint32 index) (replicate 12 0)));
}

unfoldable pub format_have : ℕ → Message
format_have index = record { id = msg_have; payload = copy_at 0 (put_uint32 index) (replicate 4 0) }

-- The number of bytes copied and the buffer afterwards; `none` is an error.
unfoldable pub parse_piece : ℕ → List ℕ → Message → Option (ℕ × List ℕ)
parse_piece index buf msg =
    if not (nat_beq msg.id msg_piece) then none else if ltb (length msg.payload) 8 then none else do
      parsed_index ← uint32 msg.payload
      begin ← uint32 (drop 4 msg.payload)
      let data_bytes = drop 8 msg.payload
      if not (nat_beq parsed_index index)
          then none
          else if leb (length buf) begin
          then none
          else if ltb (length buf) (begin + length data_bytes)
          then none
          else some (length data_bytes, copy_at begin data_bytes buf)

unfoldable pub parse_have : Message → Option ℕ
parse_have msg =
    if not (nat_beq msg.id msg_have)
    then none
    else if not (nat_beq (length msg.payload) 4)
    then none
    else uint32 msg.payload

-- `none` is the panic on a payload so long that the buffer's size wraps around to less than 5.
unfoldable pub serialize : Option Message → Option (List ℕ)
serialize none = some (replicate 4 0)
serialize (some m) =
    let len = (length m.payload + 1) % 2 ^ 32 in
    let size = (4 + len) % 2 ^ 32 in
    if ltb size 5
    then none
    else some (
        copy_at 5 m.payload (copy_at 4 (m.id ∷ []) (copy_at 0 (put_uint32 len) (replicate size 0))))

-- The message of a buffer that is not empty.
abbrev pub message_of : List ℕ → Option Message
message_of [] = none
message_of (id ∷ payload) = some (record { id = id; payload = payload })

-- The message, nil for a keep-alive, and what the reader has after it; `none` is an error.
unfoldable pub read : List ℕ → Option (Option Message × List ℕ)
read r = do
  header ← read_full 4 r
  len ← uint32 header.0
  if nat_beq len 0
      then some (none, header.1)
      else do body ← read_full len header.1; m ← message_of body.0; some (some m, body.1)
