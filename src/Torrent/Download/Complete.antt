-- ===== src/Torrent/Download/Complete.antt =====
-- A download ends with the piece when its blocks come in order.
use mathlib.Core.List.{append-nil}
use go_distributed_system.Base.{
  ℕ, zero, suc, ◌+◌, ◌-◌, ◌^◌, ◌<◌, ◌≤◌, ◌≡◌, refl, sym, ◌∙◌, ap, subst, pos, ◌+ℤ◌, Bool, true,
  false, not, ◌&&◌, inl, inr, Option, some, List, [], ◌∷◌, ◌++◌, length, map, take_nil,
  take-append_self, take, drop, replicate, length-take_le, length-drop, length-replicate,
  length-append, ltb, ltb_ℤ, Bool-cases, arith,
}
use go_distributed_system.Torrent.Bytes.{copy_at, copy_at_end}
use go_distributed_system.Torrent.Download.{
  PieceProgress, Client, Block, Input, received, read_message, max_backlog, block_size,
  request_blocks, send_requests, done, download_from, attempt_download_piece,
}
use go_distributed_system.Torrent.Download.Requests.{Tiles}
use go_distributed_system.Torrent.Download.Blocks.{piece_message, handle_piece}

-- The requests can be written, and they change neither the buffer nor the count.
record Sent (state : PieceProgress) (r : Option (PieceProgress × List Block)) : Type 0 where
  state' : PieceProgress
  blocks : List Block
  sent : r ≡ some (state', blocks)
  same_index : state'.index ≡ state.index
  same_buf : state'.buf ≡ state.buf
  same_count : state'.downloaded ≡ state.downloaded

Sent-nothing : (state : PieceProgress) → Sent state (some (state, []))
Sent-nothing state = record {
  state' = state;
  blocks = [];
  sent = refl;
  same_index = refl;
  same_buf = refl;
  same_count = refl;
}

abbrev pub writable : ℕ → Bool
writable begin = true

request_blocks-Sent :
    (fuel len : ℕ) (state : PieceProgress) → Sent state (request_blocks fuel writable len state)
unfolding request_blocks
request_blocks-Sent zero len state = Sent-nothing state
request_blocks-Sent (suc fuel) len state =
    elim (Bool-cases (ltb_ℤ state.backlog (pos max_backlog) && ltb state.requested len)) [
      | inr over ↦ rw over (Sent-nothing state)
      | inl more ↦
          let s = request_blocks-Sent fuel len (record state {
            backlog = state.backlog +ℤ pos 1;
            requested = state.requested + block_size len state.requested;
          }) in
          rw (more, s.sent)
            (record {
              state' = s.state';
              blocks = _;
              sent = refl;
              same_index = s.same_index;
              same_buf = s.same_buf;
              same_count = s.same_count;
            })
    ]

send_requests-Sent :
    (len : ℕ) (state : PieceProgress) → Sent state (send_requests writable len state)
unfolding send_requests
send_requests-Sent len state = elim (Bool-cases (not state.client.choked)) [
  | inl free ↦ rw free (request_blocks-Sent len len state)
  | inr choked ↦ rw choked (Sent-nothing state)
]

Tiles-le : (a b : ℕ) (blocks : List Block) → Tiles a b blocks → a ≤ b
Tiles-le a b [] e = omega arith
Tiles-le a b (k ∷ ks) (_, some_bytes, _, rest) = omega (arith, Tiles-le (a + k.size) b ks rest)

take-plus : (a b : ℕ) (l : List ℕ) → take a l ++ take b (drop a l) ≡ take (a + b) l
take-plus zero b l = ap (λ n. take n l) (omega arith)
take-plus (suc a) b [] = take_nil b ∙ sym (take_nil (suc a + b))
take-plus (suc a) b (x ∷ l) =
    let e : suc (a + b) ≡ suc a + b = omega arith in
    ap (λ r. x ∷ r) (take-plus a b l) ∙ ap (λ n. take n (x ∷ l)) e

module _ (index : ℕ) (piece : List ℕ) (small_index : index < 2 ^ 32)
    (small : length piece < 2 ^ 32) where
  block_data : Block → List ℕ
  block_data k = take k.size (drop k.begin piece)

  -- The peer sends the bytes of the piece that the block names.
  abbrev pub block_message : Block → Input
  block_message k = received (piece_message index k.begin (take k.size (drop k.begin piece)))

  -- The first a bytes of the piece are there, and zeros behind them.
  record Part (a : ℕ) (state : PieceProgress) : Type 0 where
    own : state.index ≡ index
    count : state.downloaded ≡ a
    buf_is : state.buf ≡ take a piece ++ replicate (length piece - a) 0

  length-Part :
      (a : ℕ) (state : PieceProgress)
      → a ≤ length piece
      → Part a state
      → length state.buf ≡ length piece
  length-Part a state le part =
      ap length part.buf_is
      ∙ omega (
        arith,
        length-append (take a piece) (replicate (length piece - a) 0),
        length-take_le a piece le,
        length-replicate {A = ℕ} (length piece - a) 0,
      )

  read_message-Part :
      (k : Block) (state : PieceProgress)
      → Part k.begin state
      → 0 < k.size
      → k.begin + k.size ≤ length piece
      → (state' : PieceProgress) × (read_message (block_message k) state ≡ some state')
        × Part (k.begin + k.size) state'
  unfolding read_message
  read_message-Part k state part some_bytes le =
      let data_bytes : List ℕ = take k.size (drop k.begin piece) in
      let all : length data_bytes ≡ k.size =
        length-take_le k.size (drop k.begin piece) (omega (arith, length-drop k.begin piece)) in
      let long = length-Part k.begin state (omega arith) part in
      (
        _,
        handle_piece index k.begin data_bytes small_index (omega arith) state part.own
            (omega (arith, long)) (omega (arith, long, all)),
        record {
          own = part.own;
          count = omega (arith, part.count, all);
          buf_is =
              ap (copy_at k.begin data_bytes) part.buf_is
              ∙ copy_at_end (take k.begin piece) data_bytes k.begin (length piece - k.begin)
                  (length piece - (k.begin + k.size))
                  (omega (arith, length-take_le k.begin piece (omega arith))) (omega (arith, all))
              ∙ ap (λ l. l ++ replicate (length piece - (k.begin + k.size)) 0)
                  (take-plus k.begin k.size piece);
        },
      )

  Part-all : (state : PieceProgress) → Part (length piece) state → state.buf ≡ piece
  Part-all state part =
      let rest : length piece - length piece ≡ 0 = omega arith in
      part.buf_is
      ∙ ap (λ n. take (length piece) piece ++ replicate n 0) rest
      ∙ append-nil (take (length piece) piece)
      ∙ ap (take (length piece)) (sym (append-nil piece))
      ∙ take-append_self piece []

  in_order :
      (blocks : List Block) (a : ℕ) (state : PieceProgress)
      → Tiles a (length piece) blocks
      → Part a state
      → download_from writable (length piece) (map block_message blocks) state ≡ done piece
  unfolding download_from
  in_order [] a state e part =
      let over : ltb state.downloaded (length piece) ≡ false = ground (arith, part.count) in
      rw over (ap done (Part-all state (subst (λ n. Part n state) e part)))
  in_order (k ∷ ks) a state (at, some_bytes, _, rest) part =
      let reach = Tiles-le (a + k.size) (length piece) ks rest in
      let more : ltb state.downloaded (length piece) ≡ true = ground (arith, part.count) in
      let s = send_requests-Sent (length piece) state in
      let part' : Part k.begin s.state' = record {
        own = s.same_index ∙ part.own;
        count = s.same_count ∙ part.count ∙ sym at;
        buf_is =
            s.same_buf
            ∙ part.buf_is
            ∙ ap (λ n. take n piece ++ replicate (length piece - n) 0) (sym at);
      } in
      let (state2, was_read, part2) = read_message-Part k s.state' part' some_bytes (omega arith) in
      rw (more, s.sent, was_read)
        (in_order ks (a + k.size) state2 rest (subst (λ b. Part (b + k.size) state2) at part2))

  -- With an index and a length that fit 32 bits, when every request can be written and the peer
  -- sends the blocks of the piece in order, whether it chokes or not, the attempt ends with the
  -- piece.
  pub attempt_download_piece-in_order :
      (client : Client) (blocks : List Block)
      → Tiles 0 (length piece) blocks
      → attempt_download_piece writable index (length piece) client (map block_message blocks)
        ≡ done piece
  unfolding attempt_download_piece
  attempt_download_piece-in_order client blocks tiles =
      in_order blocks 0 _ tiles
        (record { own = refl; count = refl; buf_is = ap (λ n. replicate n 0) (omega arith) })
