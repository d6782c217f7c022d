-- ===== src/Torrent/Download/Requests.antt =====
-- What the loop that sends requests asks for.
use go_distributed_system.Base.{
  ℕ, zero, suc, ◌+◌, ◌<◌, ◌≤◌, ◌≡◌, ◌⊎◌, inl, inr, refl, sym, ◌∙◌, subst, pos, ◌+ℤ◌, ◌≤ℤ◌, ◌<ℤ◌,
  Bool, true, false, not, ◌&&◌, none, some, List, [], ◌∷◌, length, ltb, ltb_ℤ, Bool-cases, if_true,
  if_false, some_inj, >>=-eq-some, eq_of_parts, arith,
}
use go_distributed_system.Torrent.Download.{
  max_block_size, max_backlog, Block, PieceProgress, block_size, request_blocks, send_requests,
}

-- The blocks follow each other from a to b, and each has between 1 and 16384 bytes.
abbrev pub Tiles : ℕ → ℕ → List Block → Type 0
Tiles a b [] = a ≡ b
Tiles a b (k ∷ ks) =
    (k.begin ≡ a) × (0 < k.size) × (k.size ≤ max_block_size) × Tiles (a + k.size) b ks

-- What was asked for, and that the loop stopped for a full backlog or at the end of the piece.
pub record Requested (len : ℕ) (state state' : PieceProgress) (blocks : List Block) : Type 0 where
  pub tiles : Tiles state.requested state'.requested blocks
  pub inside : state'.requested ≤ len
  pub counted : state'.backlog ≡ state.backlog +ℤ pos (length blocks)
  pub bounded : state.backlog ≤ℤ pos max_backlog → state'.backlog ≤ℤ pos max_backlog
  pub stopped : (pos max_backlog ≤ℤ state'.backlog) ⊎ (state'.requested ≡ len)
  pub same : state' ≡ record state { requested = state'.requested; backlog = state'.backlog }

block_size_bounds :
    (len requested : ℕ)
    → requested < len
    → (0 < block_size len requested)
      × (block_size len requested ≤ max_block_size)
      × (requested + block_size len requested ≤ len)
unfolding block_size
block_size_bounds len requested lt = ground arith

-- A loop that ends at once.
Requested-stop :
    (len : ℕ) (state : PieceProgress)
    → state.requested ≤ len
    → (pos max_backlog ≤ℤ state.backlog) ⊎ (state.requested ≡ len)
    → Requested len state state []
Requested-stop len state le why = record {
  tiles = refl;
  inside = le;
  counted = eq_of_parts _ _ (ground arith);
  bounded = λ b. b;
  stopped = why;
  same = refl;
}

-- A loop that asks for a block and goes on.
Requested-more :
    (len : ℕ) (state last : PieceProgress) (blocks : List Block)
    → state.backlog <ℤ pos max_backlog
    → (0 < block_size len state.requested)
      × (block_size len state.requested ≤ max_block_size)
      × (state.requested + block_size len state.requested ≤ len)
    → Requested len
        (record state {
          backlog = state.backlog +ℤ pos 1;
          requested = state.requested + block_size len state.requested;
        })
        last
        blocks
    → Requested len state last
        (record { begin = state.requested; size = block_size len state.requested } ∷ blocks)
Requested-more len state last blocks room bounds r = record {
  tiles = (refl, bounds.0, bounds.1, r.tiles);
  inside = r.inside;
  counted = eq_of_parts _ _ (ground (arith, r.counted));
  bounded = λ b. r.bounded (ground arith);
  stopped = r.stopped;
  same = r.same;
}

request_blocks-Requested :
    (fuel : ℕ) (can_write : ℕ → Bool) (len : ℕ) (state state' : PieceProgress) (blocks : List Block)
    → state.requested ≤ len
    → len ≤ fuel + state.requested
    → request_blocks fuel can_write len state ≡ some (state', blocks)
    → Requested len state state' blocks
unfolding request_blocks
request_blocks-Requested zero can_write len state state' blocks le enough e =
    subst (λ r. Requested len state r.0 r.1) (some_inj e)
      (Requested-stop len state le (inr (omega arith)))
request_blocks-Requested (suc fuel) can_write len state state' blocks le enough e =
    elim (Bool-cases (ltb_ℤ state.backlog (pos max_backlog) && ltb state.requested len)) [
      | inl more ↦
          let size = block_size len state.requested in
          let next : PieceProgress = record state {
            backlog = state.backlog +ℤ pos 1;
            requested = state.requested + size;
          } in
          elim (Bool-cases (can_write state.requested)) [
            | inr cannot ↦ cc (sym (if_true _ _ more ∙ if_false _ none cannot) ∙ e)
            | inl can ↦
                let (r, e', e'') =
                  >>=-eq-some (request_blocks fuel can_write len next)
                    (λ r. some (r.0, record { begin = state.requested; size = size } ∷ r.1))
                    (sym (if_true _ _ more ∙ if_true _ none can) ∙ e) in
                let bounds = block_size_bounds len state.requested (ground arith) in
                subst (λ z. Requested len state z.0 z.1) (some_inj e'')
                  (Requested-more len state r.0 r.1 (ground arith) bounds (
                    request_blocks-Requested fuel can_write len next r.0 r.1 (omega (arith, bounds))
                      (omega (arith, bounds)) e'))
          ]
      | inr over ↦
          subst (λ r. Requested len state r.0 r.1) (some_inj (sym (if_false _ _ over) ∙ e))
            (Requested-stop len state le (ground arith))
    ]

-- While the peer does not choke and the requests so far lie in the piece, the loop asks, unless a
-- write fails, for consecutive blocks of at most 16384 bytes from where the requests had come to,
-- none of which reaches behind the end of the piece; it counts each in the backlog, stops with 5
-- of them or more or at the end of the piece, and changes nothing else.
pub send_requests-Requested :
    (can_write : ℕ → Bool) (len : ℕ) (state state' : PieceProgress) (blocks : List Block)
    → state.client.choked ≡ false
    → state.requested ≤ len
    → send_requests can_write len state ≡ some (state', blocks)
    → Requested len state state' blocks
unfolding send_requests
send_requests-Requested can_write len state state' blocks free le e =
    let open_ : not state.client.choked ≡ true = ground (arith, free) in
    request_blocks-Requested len can_write len state state' blocks le (omega arith)
      (sym (if_true _ (some (state, [])) open_) ∙ e)
