-- ===== src/Curve25519/Unpacking.antt =====
-- The number that `from_bytes` of src/curve25519/portable.rs reads.
use mcu_crypto_asm.Base.{
  ℕ, ◌+◌, ◌-◌, ◌*◌, ◌/◌, ◌%◌, ◌^◌, ◌<◌, ◌≤◌, ◌≡◌, refl, ap, ◌∙◌, List, [], ◌∷◌, length, take, drop,
  arith, u64,
}
use mcu_crypto_asm.Base.{bit_or, bit_and_mask, length-drop, drop-drop}
use mcu_crypto_asm.Bytes.{IsBytes, le_number, IsBytes-drop}
use mcu_crypto_asm.Curve25519.{Fe51, word64, from_bytes}
use mcu_crypto_asm.Curve25519.Limbs.{number, IsCarried}
use mcu_crypto_asm.Curve25519.Limbs.{low_bits, join}

-- The first word of a byte string and what follows it.
first_word :
    (bytes : List ℕ)
    → 8 ≤ length bytes
    → IsBytes bytes
    → (le_number (take 8 bytes) < 2 ^ 64)
      × (le_number bytes ≡ le_number (take 8 bytes) + 2 ^ 64 * le_number (drop 8 bytes))
first_word (a ∷ b ∷ c ∷ d ∷ e ∷ f ∷ g ∷ h ∷ rest) n
      (ha, (hb, (hc, (hd, (he, (hf, (hg, (hh, _)))))))) =
    (omega arith, omega arith)
first_word [] n h = absurd (omega arith)
first_word (a ∷ []) n h = absurd (omega arith)
first_word (a ∷ b ∷ []) n h = absurd (omega arith)
first_word (a ∷ b ∷ c ∷ []) n h = absurd (omega arith)
first_word (a ∷ b ∷ c ∷ d ∷ []) n h = absurd (omega arith)
first_word (a ∷ b ∷ c ∷ d ∷ e ∷ []) n h = absurd (omega arith)
first_word (a ∷ b ∷ c ∷ d ∷ e ∷ f ∷ []) n h = absurd (omega arith)
first_word (a ∷ b ∷ c ∷ d ∷ e ∷ f ∷ g ∷ []) n h = absurd (omega arith)

empty_of_length : (xs : List ℕ) → length xs ≡ 0 → le_number xs ≡ 0
empty_of_length [] h = refl
empty_of_length (x ∷ xs) h = absurd (omega arith)

record AreWords (bytes : List ℕ) : Type 0 where
  b0 : word64 bytes 0 < 2 ^ 64
  b1 : word64 bytes 1 < 2 ^ 64
  b2 : word64 bytes 2 < 2 ^ 64
  b3 : word64 bytes 3 < 2 ^ 64
  sum :
      le_number bytes
      ≡ word64 bytes 0
        + 2 ^ 64 * word64 bytes 1
        + 2 ^ 128 * word64 bytes 2
        + 2 ^ 192 * word64 bytes 3

words_lem : (bytes : List ℕ) → length bytes ≡ 32 → IsBytes bytes → AreWords bytes
words_lem bytes n h =
    let rest : (k : ℕ) → length (drop k bytes) ≡ 32 - k =
      λ k. length-drop k bytes ∙ ap (λ t. t - k) n in
    let (b0, s0) = first_word bytes (omega arith) h in
    let (b1, s1) = first_word (drop 8 bytes) (omega (arith, rest 8)) (IsBytes-drop 8 bytes h) in
    let (b2, s2) = first_word (drop 16 bytes) (omega (arith, rest 16)) (IsBytes-drop 16 bytes h) in
    let (b3, s3) = first_word (drop 24 bytes) (omega (arith, rest 24)) (IsBytes-drop 24 bytes h) in
    let d1 = ap le_number (drop-drop 8 8 bytes) in
    let d2 = ap le_number (drop-drop 16 8 bytes) in
    let d3 =
      empty_of_length (drop 8 (drop 24 bytes)) (ap length (drop-drop 24 8 bytes) ∙ rest 32) in
    record { b0 = b0; b1 = b1; b2 = b2; b3 = b3; sum = omega (arith, s0, s1, s2, s3, d1, d2, d3) }

-- The limbs of four words.
limbs_of : (w0 w1 w2 w3 : ℕ) → Fe51
limbs_of w0 w1 w2 w3 = record {
  x0 = w0 % 2 ^ 51;
  x1 = (w0 / 2 ^ 51 + w1 % 2 ^ 51 * 2 ^ 13) % 2 ^ 51;
  x2 = (w1 / 2 ^ 38 + w2 % 2 ^ 38 * 2 ^ 26) % 2 ^ 51;
  x3 = (w2 / 2 ^ 25 + w3 % 2 ^ 25 * 2 ^ 39) % 2 ^ 51;
  x4 = w3 / 2 ^ 12;
}

from_bytes-limbs_of :
    (bytes : List ℕ)
    → AreWords bytes
    → from_bytes bytes
      ≡ limbs_of (word64 bytes 0) (word64 bytes 1) (word64 bytes 2) (word64 bytes 3 % 2 ^ 63)
unfolding from_bytes limbs_of
from_bytes-limbs_of bytes h =
    let w0 = word64 bytes 0 in
    let w1 = word64 bytes 1 in
    let w2 = word64 bytes 2 in
    let w3 = word64 bytes 3 % 2 ^ 63 in
    let e1 : bit_or (w0 / 2 ^ 51) (u64 (w1 * 2 ^ 13)) ≡ w0 / 2 ^ 51 + w1 % 2 ^ 51 * 2 ^ 13 =
      ap (bit_or (w0 / 2 ^ 51)) (omega arith)
      ∙ join 13 (w1 % 2 ^ 51) (w0 / 2 ^ 51) (omega (arith, h.b0)) in
    let e2 : bit_or (w1 / 2 ^ 38) (u64 (w2 * 2 ^ 26)) ≡ w1 / 2 ^ 38 + w2 % 2 ^ 38 * 2 ^ 26 =
      ap (bit_or (w1 / 2 ^ 38)) (omega arith)
      ∙ join 26 (w2 % 2 ^ 38) (w1 / 2 ^ 38) (omega (arith, h.b1)) in
    let e3 : bit_or (w2 / 2 ^ 25) (u64 (w3 * 2 ^ 39)) ≡ w2 / 2 ^ 25 + w3 % 2 ^ 25 * 2 ^ 39 =
      ap (bit_or (w2 / 2 ^ 25)) (omega arith)
      ∙ join 39 (w3 % 2 ^ 25) (w2 / 2 ^ 25) (omega (arith, h.b2)) in
    rw
      (
        bit_and_mask 63 (word64 bytes 3),
        e1,
        e2,
        e3,
        low_bits w0,
        low_bits (w0 / 2 ^ 51 + w1 % 2 ^ 51 * 2 ^ 13),
        low_bits (w1 / 2 ^ 38 + w2 % 2 ^ 38 * 2 ^ 26),
        low_bits (w2 / 2 ^ 25 + w3 % 2 ^ 25 * 2 ^ 39),
      )
      refl

-- Of 32 bytes `from_bytes` reads the number without its top bit, in limbs of 51 bits.
pub from_bytes_lem :
    (bytes : List ℕ)
    → length bytes ≡ 32
    → IsBytes bytes
    → IsCarried (from_bytes bytes) × (number (from_bytes bytes) ≡ le_number bytes % 2 ^ 255)
unfolding limbs_of
from_bytes_lem bytes n h =
    let w = words_lem bytes n h in
    rw (from_bytes-limbs_of bytes w) (
      record {
        b0 = omega arith;
        b1 = omega arith;
        b2 = omega arith;
        b3 = omega arith;
        b4 = omega arith;
      },
      omega (arith, w.b0, w.b1, w.b2, w.b3, w.sum),
    )
