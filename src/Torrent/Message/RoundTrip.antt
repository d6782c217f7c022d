-- ===== src/Torrent/Message/RoundTrip.antt =====
-- What is written is read back.
use mathlib.Core.List.{append-nil, append_assoc}
use go_distributed_system.Base.{
  ℕ, ◌+◌, ◌%◌, ◌^◌, ◌<◌, ◌≡◌, refl, Option, none, some, List, [], ◌∷◌, ◌++◌, length, replicate, ltb,
  nat_beq, arith, if_false, ap, ◌∙◌, length-append, false,
}
use go_distributed_system.Torrent.Bytes.{
  copy_at, put_uint32, uint32, copy_at_end, read_full-append, uint32-put_uint32,
}
use go_distributed_system.Torrent.Message.{Message, serialize, read}

pub length-put_uint32 : (v : ℕ) → length (put_uint32 v) ≡ 4
unfolding put_uint32
length-put_uint32 v = refl

buffer_lem :
    (id v size : ℕ) (payload : List ℕ)
    → size ≡ 5 + length payload
    → copy_at 5 payload (copy_at 4 (id ∷ []) (copy_at 0 (put_uint32 v) (replicate size 0)))
      ≡ put_uint32 v ++ id ∷ payload
unfolding put_uint32
buffer_lem id v size payload e =
    let n = length payload in
    let four : 4 ≡ length (put_uint32 v) = omega (arith, length-put_uint32 v) in
    rw
      (
        copy_at_end [] (put_uint32 v) 0 size (n + 1) refl (omega (arith, four)),
        copy_at_end (put_uint32 v) (id ∷ []) 4 (n + 1) n four (omega arith),
        copy_at_end (put_uint32 v ++ id ∷ []) payload 5 n 0
            (omega (arith, four, length-append (put_uint32 v) (id ∷ []))) (omega arith),
      )
      (ap (λ l. put_uint32 v ++ id ∷ l) (append-nil payload))

five_fits : (n : ℕ) → ltb (5 + n) 5 ≡ false
five_fits n = ground arith

serialize-some :
    (m : Message)
    → length m.payload + 5 < 2 ^ 32
    → serialize (some m) ≡ some (put_uint32 (length m.payload + 1) ++ m.id ∷ m.payload)
unfolding serialize
serialize-some m fits =
    let e1 : (length m.payload + 1) % 2 ^ 32 ≡ length m.payload + 1 = omega arith in
    let e2 : (4 + (length m.payload + 1)) % 2 ^ 32 ≡ 5 + length m.payload = omega arith in
    rw (e1, e2)
      (if_false none _ (five_fits (length m.payload))
        ∙ ap some (buffer_lem m.id (length m.payload + 1) (5 + length m.payload) m.payload refl))

read_body :
    (m : Message) (rest : List ℕ)
    → length m.payload + 1 < 2 ^ 32
    → read ((put_uint32 (length m.payload + 1) ++ m.id ∷ m.payload) ++ rest) ≡ some (some m, rest)
unfolding read
read_body m rest short =
    let n = length m.payload in
    let header = put_uint32 (n + 1) in
    let small : (n + 1) % 2 ^ 32 ≡ n + 1 = omega arith in
    let nonzero : nat_beq (n + 1) 0 ≡ false = ground arith in
    rw
      (
        append_assoc header (m.id ∷ m.payload) rest,
        read_full-append header ((m.id ∷ m.payload) ++ rest) 4 (length-put_uint32 (n + 1)),
        ← append-nil header,
        uint32-put_uint32 (n + 1) [],
        small,
        nonzero,
        read_full-append (m.id ∷ m.payload) rest (n + 1) (omega arith),
      )
      refl

-- A payload that fits a 32-bit length; the keep-alive always does.
abbrev pub FitsWire : Option Message → Type 0
FitsWire none = Unit {0}
FitsWire (some m) = length m.payload + 5 < 2 ^ 32

-- A message whose payload fits the 32-bit length, or a keep-alive, is written without a panic, and
-- what is written is read back as the same message, leaving to the reader exactly what follows it.
pub read-serialize :
    (m : Option Message) (rest : List ℕ)
    → FitsWire m
    → (bytes : List ℕ) × (serialize m ≡ some bytes) × (read (bytes ++ rest) ≡ some (m, rest))
unfolding uint32
read-serialize none rest fits = (
  replicate 4 0,
  unfold serialize in refl,
  unfold read in rw (read_full-append (replicate 4 0) rest 4 refl, uint32) refl,
)
read-serialize (some m) rest fits = (
  put_uint32 (length m.payload + 1) ++ m.id ∷ m.payload,
  serialize-some m fits,
  read_body m rest (omega arith),
)
