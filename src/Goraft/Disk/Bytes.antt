-- ===== src/Goraft/Disk/Bytes.antt =====
-- The bytes of a number and of an entry, read back.
use mathlib.Core.List.{append_assoc}
use go_distributed_system.Base.{
  ℕ, zero, suc, ◌+◌, ◌/◌, ◌^◌, ◌<◌, ◌≤◌, ◌≡◌, refl, sym, ◌∙◌, ap, some, none, List, [], ◌∷◌, ◌++◌,
  length, take, drop, take-append_left, drop-append_left, length-append, length-drop,
  take-append_self, true, leb, arith,
}
use go_distributed_system.Torrent.Bytes.{copy_at}
use go_distributed_system.Goraft.State.{Entry}
use go_distributed_system.Goraft.Disk.{
  entry_header, entry_size, le_bytes, le_value, put_entry, read_entry,
}

pub length-le_bytes : (n v : ℕ) → length (le_bytes n v) ≡ n
unfolding le_bytes
length-le_bytes zero v = refl
length-le_bytes (suc n) v = ap suc (length-le_bytes n (v / 256))

pub le_value-le_bytes : (n v : ℕ) → v < 256 ^ n → le_value (le_bytes n v) ≡ v
unfolding le_bytes le_value
le_value-le_bytes zero v h = omega arith
le_value-le_bytes (suc n) v h = omega (arith, le_value-le_bytes n (v / 256) (omega arith))

copy_at_front :
    (xs buf : List ℕ) → length xs ≤ length buf → copy_at 0 xs buf ≡ xs ++ drop (length xs) buf
unfolding copy_at
copy_at_front [] [] le = refl
copy_at_front [] (b ∷ buf) le = refl
copy_at_front (x ∷ xs) [] le = absurd (omega arith)
copy_at_front (x ∷ xs) (b ∷ buf) le = ap (λ l. x ∷ l) (copy_at_front xs buf (omega arith))

-- A copy behind what stands in front.
copy_at_behind :
    (n : ℕ) (front xs rest : List ℕ)
    → length front ≡ n
    → length xs ≤ length rest
    → copy_at n xs (front ++ rest) ≡ front ++ xs ++ drop (length xs) rest
unfolding copy_at
copy_at_behind zero [] xs rest e le = copy_at_front xs rest le
copy_at_behind zero (f ∷ front) xs rest e le = absurd (omega arith)
copy_at_behind (suc n) [] xs rest e le = absurd (omega arith)
copy_at_behind (suc n) (f ∷ front) xs rest e le =
    ap (λ l. f ∷ l) (copy_at_behind n front xs rest (omega arith) le)

-- The header of an entry.
abbrev head_of : Entry → List ℕ
head_of e = le_bytes 8 e.term ++ le_bytes 8 (length e.command)

length-head_of : (e : Entry) → length (head_of e) ≡ 16
length-head_of e = omega (
  arith,
  length-append (le_bytes 8 e.term) (le_bytes 8 (length e.command)),
  length-le_bytes 8 e.term,
  length-le_bytes 8 (length e.command),
)

-- A slot with an entry: the header, the command, and what stood there before.
put_entry_shape :
    (e : Entry) (buf : List ℕ)
    → length buf ≡ entry_size
    → length e.command ≤ 112
    → (rest : List ℕ) × (put_entry e buf ≡ head_of e ++ e.command ++ rest)
      × (length (put_entry e buf) ≡ entry_size)
unfolding put_entry le_bytes
put_entry_shape e buf long fits =
    let t = le_bytes 8 e.term in
    let l = le_bytes 8 (length e.command) in
    let lt = length-le_bytes 8 e.term in
    let ll = length-le_bytes 8 (length e.command) in
    let rest1 = drop (length t) buf in
    let rest2 = drop (length l) rest1 in
    let rest3 = drop (length e.command) rest2 in
    let long1 = length-drop (length t) buf in
    let long2 = length-drop (length l) rest1 in
    let long3 = length-drop (length e.command) rest2 in
    let step1 : copy_at 0 t buf ≡ t ++ rest1 = copy_at_front t buf (omega arith) in
    let step2 : copy_at 8 l (t ++ rest1) ≡ (t ++ l) ++ rest2 =
      copy_at_behind 8 t l rest1 lt (omega arith) ∙ sym (append_assoc t l rest2) in
    let step3 : copy_at 16 e.command ((t ++ l) ++ rest2) ≡ (t ++ l) ++ e.command ++ rest3 =
      copy_at_behind 16 (t ++ l) e.command rest2 (length-head_of e) (omega arith) in
    let whole : put_entry e buf ≡ (t ++ l) ++ e.command ++ rest3 =
      ap (λ b. copy_at 16 e.command (copy_at 8 l b)) step1
      ∙ ap (copy_at 16 e.command) step2
      ∙ step3 in
    (
      rest3,
      whole,
      ap length whole
          ∙ omega (
            arith,
            length-append (t ++ l) (e.command ++ rest3),
            length-append e.command rest3,
            length-head_of e,
          ),
    )

-- A slot into which an entry was put reads as the entry, without the channel.
pub read_entry-put_entry :
    (e : Entry) (buf : List ℕ)
    → length buf ≡ entry_size
    → e.term < 2 ^ 64
    → length e.command ≤ 112
    → (read_entry (put_entry e buf) ≡ some (record e { result = none }))
      × (length (put_entry e buf) ≡ entry_size)
unfolding read_entry le_value le_bytes
read_entry-put_entry e buf long small fits =
    let (rest, shape, size) = put_entry_shape e buf long fits in
    let t = le_bytes 8 e.term in
    let l = le_bytes 8 (length e.command) in
    let tail = e.command ++ rest in
    let lt = length-le_bytes 8 e.term in
    let ll = length-le_bytes 8 (length e.command) in
    let split = append_assoc t l tail in
    let at_term : le_value (take 8 ((t ++ l) ++ tail)) ≡ e.term =
      ap (λ b. le_value (take 8 b)) split
      ∙ ap le_value (take-append_left 8 t (l ++ tail) lt)
      ∙ le_value-le_bytes 8 e.term small in
    let at_len : le_value (take 8 (drop 8 ((t ++ l) ++ tail))) ≡ length e.command =
      ap (λ b. le_value (take 8 (drop 8 b))) split
      ∙ ap (λ b. le_value (take 8 b)) (drop-append_left 8 t (l ++ tail) lt)
      ∙ ap le_value (take-append_left 8 l tail ll)
      ∙ le_value-le_bytes 8 (length e.command) (omega arith) in
    let at_command : take (length e.command) (drop 16 ((t ++ l) ++ tail)) ≡ e.command =
      ap (take (length e.command)) (drop-append_left 16 (t ++ l) tail (length-head_of e))
      ∙ take-append_self e.command rest in
    let room : leb (entry_header + length e.command) entry_size ≡ true = ground (arith, fits) in
    (rw (shape, at_len, room, at_term, at_command) refl, size)
