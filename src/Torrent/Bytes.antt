-- ===== src/Torrent/Bytes.antt =====
-- The parts of Go that the formats use: `copy` on slices, big-endian integers, and `io.ReadFull` on
-- a reader, which is the list of the bytes that it still has. A byte is a number below 256.
use go_distributed_system.Base.{
  ℕ, zero, suc, ◌+◌, ◌*◌, ◌/◌, ◌%◌, ◌^◌, ◌≡◌, refl, ap, Option, none, some, List, [], ◌∷◌, ◌++◌,
  length, take, drop, replicate, leb, if◌then◌else◌, length-append, arith, if_true, le→leb,
  take-append_left, drop-append_left, ◌∙◌,
}

-- `copy(dst[at:], src)`
unfoldable pub copy_at : ℕ → List ℕ → List ℕ → List ℕ
copy_at at src [] = []
copy_at zero [] (d ∷ dst) = d ∷ dst
copy_at zero (s ∷ src) (d ∷ dst) = s ∷ copy_at zero src dst
copy_at (suc at) src (d ∷ dst) = d ∷ copy_at at src dst

-- `binary.BigEndian.PutUint32` of a number that is converted to a uint32 before.
unfoldable pub put_uint32 : ℕ → List ℕ
put_uint32 v = v / 16777216 % 256 ∷ v / 65536 % 256 ∷ v / 256 % 256 ∷ v % 256 ∷ []

-- `binary.BigEndian.Uint32`; `none` is the panic on fewer than 4 bytes.
unfoldable pub uint32 : List ℕ → Option ℕ
uint32 (a ∷ b ∷ c ∷ d ∷ _) = some (a * 16777216 + b * 65536 + c * 256 + d)
uint32 _ = none

-- `binary.BigEndian.Uint16`
unfoldable pub uint16 : List ℕ → Option ℕ
uint16 (a ∷ b ∷ _) = some (a * 256 + b)
uint16 _ = none

-- `io.ReadFull` into `n` bytes: them and what the reader has after them, or an error.
unfoldable pub read_full : ℕ → List ℕ → Option (List ℕ × List ℕ)
read_full n r = if leb n (length r) then some (take n r, drop n r) else none

pub uint32-put_uint32 : (v : ℕ) (rest : List ℕ) → uint32 (put_uint32 v ++ rest) ≡ some (v % 2 ^ 32)
unfolding uint32 put_uint32
uint32-put_uint32 v rest = ap some (omega arith)

copy_at_none : (dst : List ℕ) → copy_at 0 [] dst ≡ dst
unfolding copy_at
copy_at_none [] = refl
copy_at_none (d ∷ dst) = refl

copy_at_start :
    (ys : List ℕ) (m k : ℕ) → m ≡ length ys + k → copy_at 0 ys (replicate m 0) ≡ ys ++ replicate k 0
unfolding copy_at
copy_at_start [] m k e =
    let same : m ≡ k = omega arith in copy_at_none (replicate m 0) ∙ ap (λ n. replicate n 0) same
copy_at_start (y ∷ ys) zero k e = ground arith
copy_at_start (y ∷ ys) (suc m) k e = ap (λ l. y ∷ l) (copy_at_start ys m k (omega arith))

-- Copying into the part of a buffer that is still zero.
pub copy_at_end :
    (xs ys : List ℕ) (n m k : ℕ)
    → n ≡ length xs
    → m ≡ length ys + k
    → copy_at n ys (xs ++ replicate m 0) ≡ (xs ++ ys) ++ replicate k 0
unfolding copy_at
copy_at_end [] ys zero m k at e = copy_at_start ys m k e
copy_at_end [] ys (suc n) m k at e = ground arith
copy_at_end (x ∷ xs) ys zero m k at e = ground arith
copy_at_end (x ∷ xs) ys (suc n) m k at e = ap (λ l. x ∷ l) (copy_at_end xs ys n m k (omega arith) e)

pub read_full-append :
    (xs rest : List ℕ) (n : ℕ) → length xs ≡ n → read_full n (xs ++ rest) ≡ some (xs, rest)
unfolding read_full
read_full-append xs rest n e = rw (
  if_true _ _ (le→leb n (length (xs ++ rest)) (rw length-append (omega arith))),
  take-append_left n xs rest e,
  drop-append_left n xs rest e,
)
