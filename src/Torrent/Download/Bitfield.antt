-- ===== src/Torrent/Download/Bitfield.antt =====
-- The bits of torrent-client/bitfield/bitfield.go.
use native.Mathlib.Nat.{div-div-eq-div-mul}
use native.Mathlib.Decide.{ℕ_discrete}
use go_distributed_system.Base.{
  ℕ, zero, suc, ◌+◌, ◌-◌, ◌/◌, ◌%◌, ◌^◌, ◌≡◌, refl, sym, ◌∙◌, ap, subst, true, false, not, ◌&&◌,
  none, some, List, length, get_elem?, set, get_elem?-set_self, get_elem?-set_ne, get_elem?-lt,
  get_elem?-none_le, ltb, nat_beq, if◌then◌else◌, Bool-cases, Option-cases, inl, inr, arith,
}
use go_distributed_system.Torrent.Download.{has_piece, set_piece}

-- The bit of a number at a position, from the lowest.
bit : ℕ → ℕ → ℕ
bit b zero = b % 2
bit b (suc k) = bit (b / 2) k

bit-eq : (b k : ℕ) → b / 2 ^ k % 2 ≡ bit b k
unfolding bit
bit-eq b zero = omega arith
bit-eq b (suc k) =
    let halve : b / 2 ^ suc k ≡ b / 2 / 2 ^ k =
      ap (λ n. b / n) (omega arith) ∙ sym (div-div-eq-div-mul b 2 (2 ^ k)) in
    ap (λ n. n % 2) halve ∙ bit-eq (b / 2) k

-- Adding a power of two whose bit is not set sets that bit and no other.
bit-plus : (b k m : ℕ) → bit b k ≡ 0 → bit (b + 2 ^ k) m ≡ (if nat_beq k m then 1 else bit b m)
unfolding bit
bit-plus b zero zero z = ground arith
bit-plus b zero (suc m) z =
    let same : (b + 1) / 2 ≡ b / 2 = omega (arith, z) in
    let differ : nat_beq 0 (suc m) ≡ false = ground arith in rw (same, differ) refl
bit-plus b (suc k) zero z =
    let differ : nat_beq (suc k) 0 ≡ false = ground arith in rw differ (omega arith)
bit-plus b (suc k) (suc m) z =
    let same : (b + 2 ^ suc k) / 2 ≡ b / 2 + 2 ^ k = omega arith in
    let test : nat_beq (suc k) (suc m) ≡ nat_beq k m = ground arith in
    rw (same, test) (bit-plus (b / 2) k m z)

has_piece_at :
    (bf : List ℕ) (i : ℕ) {b : ℕ}
    → get_elem? bf (i / 8) ≡ some b
    → has_piece bf i ≡ not (nat_beq (bit b (7 - i % 8)) 0)
unfolding has_piece
has_piece_at bf i {b} at_i =
    rw (at_i, has_piece) (ap (λ n. not (nat_beq n 0)) (bit-eq b (7 - i % 8)))

has_piece_out : (bf : List ℕ) (i : ℕ) → get_elem? bf (i / 8) ≡ none → has_piece bf i ≡ false
unfolding has_piece
has_piece_out bf i out = rw (out, has_piece)

set_piece_out : (bf : List ℕ) (i : ℕ) → get_elem? bf (i / 8) ≡ none → set_piece bf i ≡ bf
unfolding set_piece
set_piece_out bf i out = rw (out, set_piece)

set_piece_known : (bf : List ℕ) (i : ℕ) → has_piece bf i ≡ true → set_piece bf i ≡ bf
unfolding set_piece
set_piece_known bf i known = elim (Option-cases (get_elem? bf (i / 8))) [
  | inl out ↦ rw (out, set_piece)
  | inr (b, at_i) ↦ rw (at_i, set_piece, known)
]

set_piece_new :
    (bf : List ℕ) (i : ℕ) {b : ℕ}
    → get_elem? bf (i / 8) ≡ some b
    → has_piece bf i ≡ false
    → set_piece bf i ≡ set bf (i / 8) (b + 2 ^ (7 - i % 8))
unfolding set_piece
set_piece_new bf i at_i new = rw (at_i, set_piece, new)

-- Whether j is set after a bit that was not set is added at i, in the same byte.
added_bit :
    (b i j : ℕ)
    → i / 8 ≡ j / 8
    → bit b (7 - i % 8) ≡ 0
    → not (nat_beq (bit (b + 2 ^ (7 - i % 8)) (7 - j % 8)) 0)
      ≡ (if nat_beq i j then true else not (nat_beq (bit b (7 - j % 8)) 0))
added_bit b i j same_byte clear =
    let plus = bit-plus b (7 - i % 8) (7 - j % 8) clear in
    let test : nat_beq (7 - i % 8) (7 - j % 8) ≡ nat_beq i j = grind arith in
    rw (plus, test) (elim (Bool-cases (nat_beq i j)) [ inl e ↦ rw e | inr e ↦ rw e ])

has_piece_same :
    (bf bf' : List ℕ) (j : ℕ)
    → get_elem? bf' (j / 8) ≡ get_elem? bf (j / 8)
    → has_piece bf' j ≡ has_piece bf j
has_piece_same bf bf' j same = elim (Option-cases (get_elem? bf (j / 8))) [
  | inl out ↦ has_piece_out bf' j (same ∙ out) ∙ sym (has_piece_out bf j out)
  | inr (b, at_j) ↦ has_piece_at bf' j (same ∙ at_j) ∙ sym (has_piece_at bf j at_j)
]

-- The bits after one is added that was not set.
has_piece_added :
    (bf : List ℕ) (i j : ℕ) {b : ℕ}
    → get_elem? bf (i / 8) ≡ some b
    → has_piece bf i ≡ false
    → has_piece (set bf (i / 8) (b + 2 ^ (7 - i % 8))) j
      ≡ (if nat_beq i j then true else has_piece bf j)
has_piece_added bf i j {b} at_i new =
    let b' = b + 2 ^ (7 - i % 8) in
    elim (ℕ_discrete (j / 8) (i / 8)) [
      | yes e ↦
          let clear : bit b (7 - i % 8) ≡ 0 = ground (arith, has_piece_at bf i at_i) in
          let at_j : get_elem? bf (j / 8) ≡ some b = rw e at_i in
          let at_j' : get_elem? (set bf (i / 8) b') (j / 8) ≡ some b' =
            rw e (get_elem?-set_self bf (i / 8) b' (get_elem?-lt bf (i / 8) at_i)) in
          has_piece_at (set bf (i / 8) b') j at_j'
          ∙ added_bit b i j (sym e) clear
          ∙ ap (λ r. if nat_beq i j then true else r) (sym (has_piece_at bf j at_j))
      | no ne ↦
          let differ : nat_beq i j ≡ false = grind arith in
          rw differ
            (has_piece_same bf (set bf (i / 8) b') j (get_elem?-set_ne bf (i / 8) (j / 8) b' ne))
    ]

-- After `SetPiece` the bit of the piece is set, where the bitfield reaches so far, and no other
-- bit changes.
pub has_piece-set_piece :
    (bf : List ℕ) (i j : ℕ)
    → has_piece (set_piece bf i) j
      ≡ (if nat_beq i j && ltb (i / 8) (length bf) then true else has_piece bf j)
has_piece-set_piece bf i j = elim (Option-cases (get_elem? bf (i / 8))) [
  | inl out ↦
      let short : ltb (i / 8) (length bf) ≡ false =
        ground (arith, get_elem?-none_le bf (i / 8) out) in
      let test : (nat_beq i j && ltb (i / 8) (length bf)) ≡ false = ground (arith, short) in
      rw (set_piece_out bf i out, test)
  | inr (b, at_i) ↦
      let long : ltb (i / 8) (length bf) ≡ true = ground (arith, get_elem?-lt bf (i / 8) at_i) in
      let test : (nat_beq i j && ltb (i / 8) (length bf)) ≡ nat_beq i j = ground (arith, long) in
      rw test (elim (Bool-cases (has_piece bf i)) [
        | inl known ↦ rw (set_piece_known bf i known) (elim (ℕ_discrete i j) [
          | yes e ↦
              let self : nat_beq i j ≡ true = ground (arith, e) in
              rw self (subst (λ k. has_piece bf k ≡ true) e known)
          | no ne ↦ let differ : nat_beq i j ≡ false = ground (arith, ne) in rw differ
        ])
        | inr new ↦ rw (set_piece_new bf i at_i new) (has_piece_added bf i j at_i new)
      ])
]
