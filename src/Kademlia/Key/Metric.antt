-- ===== src/Kademlia/Key/Metric.antt =====
-- The distance of keys: its range, its symmetry, and which keys are at the greatest one.
use go_distributed_system.Base.{
  ℕ, zero, suc, ◌+◌, ◌/◌, ◌^◌, ◌<◌, ◌≡◌, ◌≢◌, ◌⊎◌, ◌↔◌, refl, ap, inl, inr, true, some, List, [],
  ◌∷◌, length, nat_beq, Bool-cases, arith,
}
use go_distributed_system.Kademlia.Key.{
  KKey, kkey_byte_count, kkey_bit_count, xor_bits, xor, leading_zeros8, leading_zeros_from,
  leading_zeros, distance, to_kkey,
}

-- Each element is a byte.
abbrev pub AreBytes : List ℕ → Type 0
AreBytes [] = Unit
AreBytes (b ∷ k) = (b < 256) × AreBytes k

-- A key as the type [18]byte has them.
abbrev pub IsKey : KKey → Type 0
IsKey k = (length k ≡ kkey_byte_count) × AreBytes k

xor_bits_comm : (w a b : ℕ) → xor_bits w a b ≡ xor_bits w b a
unfolding xor_bits
xor_bits_comm zero a b = refl
xor_bits_comm (suc w) a b = omega (arith, xor_bits_comm w (a / 2) (b / 2))

xor_bits_self : (w a : ℕ) → xor_bits w a a ≡ 0
unfolding xor_bits
xor_bits_self zero a = refl
xor_bits_self (suc w) a = omega (arith, xor_bits_self w (a / 2))

xor_bits_lt : (w a b : ℕ) → xor_bits w a b < 2 ^ w
unfolding xor_bits
xor_bits_lt zero a b = omega arith
xor_bits_lt (suc w) a b = omega (arith, xor_bits_lt w (a / 2) (b / 2))

xor_bits_zero : (w a b : ℕ) → a < 2 ^ w → b < 2 ^ w → xor_bits w a b ≡ 0 → a ≡ b
unfolding xor_bits
xor_bits_zero zero a b la lb e = omega arith
xor_bits_zero (suc w) a b la lb e =
    omega (arith, xor_bits_zero w (a / 2) (b / 2) (omega arith) (omega arith) (omega arith))

xor_comm : (j k : KKey) → xor j k ≡ xor k j
unfolding xor
xor_comm [] [] = refl
xor_comm [] (b ∷ k) = refl
xor_comm (a ∷ j) [] = refl
xor_comm (a ∷ j) (b ∷ k) = rw (xor_bits_comm 8 a b, xor_comm j k)

-- The distance of two keys does not depend on their order.
pub distance_comm : (j k : KKey) → distance j k ≡ distance k j
unfolding distance
distance_comm j k = ap leading_zeros (xor_comm j k)

leading_zeros8_lt : (b : ℕ) → b ≢ 0 → leading_zeros8 b < 8
unfolding leading_zeros8
leading_zeros8_lt b ne = ground arith

-- Each byte is 0.
AreZero : List ℕ → Type 0
AreZero [] = Unit
AreZero (b ∷ k) = (b ≡ 0) × AreZero k

leading_zeros_from_range :
    (i : ℕ) (k : List ℕ)
    → i + length k ≡ kkey_byte_count
    → (leading_zeros_from i k < kkey_bit_count)
      ⊎ ((leading_zeros_from i k ≡ kkey_bit_count) × AreZero k)
unfolding leading_zeros_from AreZero
leading_zeros_from_range i [] long = inr (refl, tt)
leading_zeros_from_range i (b ∷ k) long = elim (Bool-cases (nat_beq b 0)) [
  | inl zeros ↦ rw zeros (elim (leading_zeros_from_range (suc i) k (omega arith)) [
    | inl lt ↦ inl lt
    | inr (e, rest) ↦ inr (e, (ground arith, rest))
  ])
  | inr differ ↦ rw differ (inl (omega (arith, leading_zeros8_lt b (ground arith))))
]

xor_zero : (j k : KKey) → length j ≡ length k → AreBytes j → AreBytes k → AreZero (xor j k) → j ≡ k
unfolding xor AreZero
xor_zero [] [] e bj bk zeros = refl
xor_zero [] (b ∷ k) e bj bk zeros = absurd (omega arith)
xor_zero (a ∷ j) [] e bj bk zeros = absurd (omega arith)
xor_zero (a ∷ j) (b ∷ k) e (la, bj) (lb, bk) (z, zeros) =
    rw (xor_bits_zero 8 a b (omega arith) (omega arith) z, xor_zero j k (omega arith) bj bk zeros)

length-xor : (j k : KKey) → length j ≡ length k → length (xor j k) ≡ length j
unfolding xor
length-xor [] k e = refl
length-xor (a ∷ j) [] e = absurd (omega arith)
length-xor (a ∷ j) (b ∷ k) e = ap suc (length-xor j k (omega arith))

leading_zeros_self : (i : ℕ) (k : KKey) → leading_zeros_from i (xor k k) ≡ kkey_bit_count
unfolding leading_zeros_from xor
leading_zeros_self i [] = refl
leading_zeros_self i (b ∷ k) =
    let same : nat_beq (xor_bits 8 b b) 0 ≡ true = ground (arith, xor_bits_self 8 b) in
    rw same (leading_zeros_self (suc i) k)

-- Two keys of 18 bytes are at a distance below 144, the number of bits, or they are the same key,
-- at distance 144.
pub distance_range :
    (j k : KKey)
    → IsKey j
    → IsKey k
    → (distance j k < kkey_bit_count) ⊎ ((distance j k ≡ kkey_bit_count) × (j ≡ k))
unfolding distance leading_zeros
distance_range j k (lj, bj) (lk, bk) =
    elim (leading_zeros_from_range 0 (xor j k) (omega (arith, length-xor j k (omega arith)))) [
      | inl lt ↦ inl lt
      | inr (e, zeros) ↦ inr (e, xor_zero j k (omega arith) bj bk zeros)
    ]

pub distance_self : (k : KKey) → distance k k ≡ kkey_bit_count
unfolding distance leading_zeros
distance_self k = leading_zeros_self 0 k

pub to_kkey_iff : (k l : List ℕ) → (to_kkey k ≡ some l) ↔ ((length k ≡ kkey_byte_count) × (k ≡ l))
unfolding to_kkey
to_kkey_iff k l = ground arith
