-- ===== src/Kademlia/Key.antt =====
-- The keys of kademlia/utils.go and their distance: the number of leading bits that two keys share.
-- A key is the list of its 18 bytes, and a byte a number below 256.
pub mod Metric
use native.Mathlib.Decide.{dec_lt}
use go_distributed_system.Base.{
  ℕ, zero, suc, ◌<◌, subst, ◌+◌, ◌*◌, ◌/◌, ◌%◌, ◌≡◌, ◌↔◌, refl, ap, Bool, true, false, ◌&&◌, Option,
  none, some, List, [], ◌∷◌, length, nat_beq, ltb, leb, if◌then◌else◌, Eq, arith,
}

abbrev pub KKey : Type 0
KKey = List ℕ

abbrev pub kkey_byte_count : ℕ
kkey_byte_count = 18

abbrev pub kkey_bit_count : ℕ
kkey_bit_count = 144

-- `==` on keys.
unfoldable pub key_beq : KKey → KKey → Bool
key_beq [] [] = true
key_beq [] (b ∷ k) = false
key_beq (a ∷ j) [] = false
key_beq (a ∷ j) (b ∷ k) = nat_beq a b && key_beq j k

pub key_beq_iff : (j k : KKey) → (key_beq j k ≡ true) ↔ (j ≡ k)
unfolding key_beq
key_beq_iff [] [] = ground arith
key_beq_iff [] (b ∷ k) = ground arith
key_beq_iff (a ∷ j) [] = ground arith
key_beq_iff (a ∷ j) (b ∷ k) = ground (arith, key_beq_iff j k)

instance abbrev pub key_eq : Eq KKey
key_eq = record { beq_iff = key_beq_iff; beq = key_beq }

-- The operator `^` on numbers of w bits.
unfoldable pub xor_bits : ℕ → ℕ → ℕ → ℕ
xor_bits zero a b = 0
xor_bits (suc w) a b = 2 * xor_bits w (a / 2) (b / 2) + (a % 2 + b % 2) % 2

-- `KKey.Xor`; both arrays have the same length.
unfoldable pub xor : KKey → KKey → KKey
xor [] other = []
xor (a ∷ id) [] = []
xor (a ∷ id) (b ∷ other) = xor_bits 8 a b ∷ xor id other

-- `bits.LeadingZeros8`
unfoldable pub leading_zeros8 : ℕ → ℕ
leading_zeros8 b =
    if leb 128 b
    then 0
    else if leb 64 b
    then 1
    else if leb 32 b
    then 2
    else if leb 16 b
    then 3
    else if leb 8 b
    then 4
    else if leb 4 b
    then 5
    else if leb 2 b
    then 6
    else if leb 1 b
    then 7
    else 8

-- The loop of `LeadingZeros` from the i-th byte on.
unfoldable pub leading_zeros_from : ℕ → KKey → ℕ
leading_zeros_from i [] = kkey_bit_count
leading_zeros_from i (b ∷ id) =
    if nat_beq b 0 then leading_zeros_from (suc i) id else i * 8 + leading_zeros8 b

unfoldable pub leading_zeros : KKey → ℕ
leading_zeros id = leading_zeros_from 0 id

unfoldable pub distance : KKey → KKey → ℕ
distance id other = leading_zeros (xor id other)

-- `ToKKey`: the error is ERR_INVALID_KEY.
unfoldable pub to_kkey : List ℕ → Option KKey
to_kkey k = if nat_beq (length k) kkey_byte_count then some k else none

-- `bytes.Compare(j, k) >= 0`
unfoldable pub not_before : KKey → KKey → Bool
not_before j [] = true
not_before [] (b ∷ k) = false
not_before (a ∷ j) (b ∷ k) = if ltb b a then true else if ltb a b then false else not_before j k

-- The order of the keys as numbers: at the first byte in which they differ, the less byte.
pub data KeyLt : KKey → KKey → Type 0 where
  ends : (b : ℕ) (k : KKey) → KeyLt [] (b ∷ k)
  less_byte : (a b : ℕ) (j k : KKey) → a < b → KeyLt (a ∷ j) (b ∷ k)
  same_byte : (a : ℕ) (j k : KKey) → KeyLt j k → KeyLt (a ∷ j) (a ∷ k)

pub not_before_lt : (j k : KKey) → not_before j k ≡ false → KeyLt j k
unfolding not_before
not_before_lt j [] h = cc h
not_before_lt [] (b ∷ k) h = ends b k
not_before_lt (a ∷ j) (b ∷ k) h = elim (dec_lt a b) [
  | yes lt ↦ less_byte a b j k lt
  | no ge ↦ elim (dec_lt b a) [
    | yes gt ↦ absurd (ground arith)
    | no le ↦
        let same : a ≡ b = omega arith in
        subst (λ x. KeyLt (a ∷ j) (x ∷ k)) same (same_byte a j k (not_before_lt j k (ground arith)))
  ]
]

-- An order that holds is not undone by `not_before`.
KeyLt-not_before : (j k : KKey) → KeyLt j k → not_before j k ≡ false
unfolding not_before
KeyLt-not_before j k (ends b l) = refl
KeyLt-not_before j k (less_byte a b i l lt) = ground arith
KeyLt-not_before j k (same_byte a i l h) = let e = KeyLt-not_before i l h in ground arith

pub not_before_ge : (j k : KKey) → not_before j k ≡ true → ¬ KeyLt j k
not_before_ge j k h lt = cc (h, KeyLt-not_before j k lt)
