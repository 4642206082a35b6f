-- ===== src/Curve25519/Clamp.antt =====
-- The scalar's bytes in src/curve25519/portable.rs: the bit that a turn reads, and the clamping.
use mcu_crypto_asm.Base.{
  ℕ, zero, suc, ◌+◌, ◌*◌, ◌/◌, ◌%◌, ◌^◌, ◌<◌, ◌≡◌, refl, ap, ◌∙◌, arith, agree_at, List, [], ◌∷◌,
  length, get_or, set,
}
use mcu_crypto_asm.Base.{bit_and, bit_or, bit_and_mask}
use mcu_crypto_asm.Bytes.{IsBytes, le_number}
use mcu_crypto_asm.Curve25519.{bit_at, clamp}
use native.Mathlib.Nat.{pow-suc, pow-zero, div-div-eq-div-mul, zero-div}

-- Eight places of a byte.
low_place : (b r k : ℕ) → b < 2 ^ 8 → k < 8 → b / 2 ^ k % 2 ≡ (b + 2 ^ 8 * r) / 2 ^ k % 2
low_place b r zero h k = omega arith
low_place b r (suc zero) h k = omega arith
low_place b r (suc (suc zero)) h k = omega arith
low_place b r (suc (suc (suc zero))) h k = omega arith
low_place b r (suc (suc (suc (suc zero)))) h k = omega arith
low_place b r (suc (suc (suc (suc (suc zero))))) h k = omega arith
low_place b r (suc (suc (suc (suc (suc (suc zero)))))) h k = omega arith
low_place b r (suc (suc (suc (suc (suc (suc (suc zero))))))) h k = omega arith
low_place b r (suc (suc (suc (suc (suc (suc (suc (suc k)))))))) h lt = absurd (omega arith)

pow_shift : (n : ℕ) → 2 ^ (8 + n) ≡ 2 ^ 8 * 2 ^ n
pow_shift zero = refl
pow_shift (suc n) =
    ap (λ t. 2 ^ t) (omega arith) ∙ pow-suc 2 (8 + n) ∙ omega (arith, pow_shift n, pow-suc 2 n)

-- Bit `8 * q + k` of the number is bit `k` of byte `q`.
place :
    (bytes : List ℕ) (q k : ℕ)
    → IsBytes bytes
    → k < 8
    → get_or bytes q 0 / 2 ^ k % 2 ≡ le_number bytes / 2 ^ (8 * q + k) % 2
place [] q k h lt = rw (zero-div (2 ^ k), zero-div (2 ^ (8 * q + k))) refl
place (b ∷ bytes) zero k (hb, h) lt =
    let same : 8 * 0 + k ≡ k = omega arith in rw same (low_place b (le_number bytes) k hb lt)
place (b ∷ bytes) (suc q) k (hb, h) lt =
    let same : 8 * suc q + k ≡ 8 + (8 * q + k) = omega arith in
    let n = b + 2 ^ 8 * le_number bytes in
    let drop_byte : n / 2 ^ 8 ≡ le_number bytes = omega arith in
    rw (same, pow_shift (8 * q + k), ← div-div-eq-div-mul n (2 ^ 8) (2 ^ (8 * q + k)), drop_byte)
      (place bytes q k h lt)

pub bit_at_lem :
    (bytes : List ℕ) (t : ℕ) → IsBytes bytes → bit_at bytes t ≡ le_number bytes / 2 ^ t % 2
bit_at_lem bytes t h =
    let same : 8 * (t / 8) + t % 8 ≡ t = omega arith in
    bit_and_mask 1 (get_or bytes (t / 8) 0 / 2 ^ (t % 8))
    ∙ place bytes (t / 8) (t % 8) h (omega arith)
    ∙ ap (λ k. le_number bytes / 2 ^ k % 2) same

-- The first byte loses its three low bits, and the last has its two top bits set to 01.
low_byte : (x : ℕ) → x < 256 → bit_and x 248 ≡ x / 8 * 8
low_byte x h = agree_at (λ byte. bit_and byte 248) (λ byte. byte / 8 * 8) 256 x h refl

high_byte : (x : ℕ) → x < 256 → bit_or (bit_and x 127) 64 ≡ 64 + x % 64
high_byte x h =
    agree_at (λ byte. bit_or (bit_and byte 127) 64) (λ byte. 64 + byte % 64) 256 x h refl

set-set : (xs : List ℕ) (i v w : ℕ) → set (set xs i v) i w ≡ set xs i w
set-set [] i v w = refl
set-set (x ∷ xs) zero v w = refl
set-set (x ∷ xs) (suc i) v w = ap (λ t. x ∷ t) (set-set xs i v w)

get_or-set : (xs : List ℕ) (i v : ℕ) → i < length xs → get_or (set xs i v) i 0 ≡ v
get_or-set [] i v h = absurd (omega arith)
get_or-set (x ∷ xs) zero v h = refl
get_or-set (x ∷ xs) (suc i) v h = get_or-set xs i v (omega arith)

-- The number of a byte string by its last byte and what is below it.
record Top (xs : List ℕ) (i : ℕ) : Type 0 where
  low : ℕ
  below : low < (2 ^ 8) ^ i
  top_below : get_or xs i 0 < 2 ^ 8
  whole : le_number xs ≡ low + (2 ^ 8) ^ i * get_or xs i 0
  written : (v : ℕ) → le_number (set xs i v) ≡ low + (2 ^ 8) ^ i * v
  bytes : (v : ℕ) → v < 2 ^ 8 → IsBytes (set xs i v)

split_last : (xs : List ℕ) (i : ℕ) → length xs ≡ suc i → IsBytes xs → Top xs i
split_last [] i e h = absurd (omega arith)
split_last (x ∷ []) zero e (hx, h) = record {
  low = 0;
  below = omega (arith, pow-zero (2 ^ 8));
  top_below = hx;
  whole = omega (arith, ap (λ (t : ℕ). t * x) (pow-zero (2 ^ 8)));
  written = λ v. omega (arith, ap (λ (t : ℕ). t * v) (pow-zero (2 ^ 8)));
  bytes = λ v lt. (lt, tt);
}
split_last (x ∷ y ∷ xs) zero e h = absurd (omega arith)
split_last (x ∷ xs) (suc i) e (hx, h) =
    let t = split_last xs i (omega arith) h in
    let grown : (v : ℕ) → (2 ^ 8) ^ suc i * v ≡ 2 ^ 8 * ((2 ^ 8) ^ i * v) =
      λ v. omega (arith, ap (λ (p : ℕ). p * v) (pow-suc (2 ^ 8) i)) in
    record {
      low = x + 2 ^ 8 * t.low;
      below = omega (arith, hx, t.below, pow-suc (2 ^ 8) i);
      top_below = t.top_below;
      whole = omega (arith, t.whole, grown (get_or xs i 0));
      written = λ v. omega (arith, t.written v, grown v);
      bytes = λ v lt. (hx, t.bytes v lt);
    }

-- Of 32 bytes `clamp` gives 32 bytes with the number clamped: a multiple of 8 with bit 254 set.
pub clamp_lem :
    (scalar : List ℕ)
    → length scalar ≡ 32
    → IsBytes scalar
    → IsBytes (clamp scalar)
      × (le_number (clamp scalar) ≡ 2 ^ 254 + le_number scalar % 2 ^ 254 / 8 * 8)
unfolding clamp
clamp_lem [] e h = absurd (omega arith)
clamp_lem (b ∷ rest) e (hb, h) =
    let t = split_last rest 30 (omega arith) h in
    let v = get_or rest 30 0 in
    let again : get_or (set rest 30 (bit_and v 127)) 30 0 ≡ bit_and v 127 =
      get_or-set rest 30 (bit_and v 127) (omega arith) in
    let top = high_byte v t.top_below in
    let low = low_byte b hb in
    rw (again, set-set rest 30 (bit_and v 127) (bit_or (bit_and v 127) 64), top, low)
      (
        (omega (arith, hb), t.bytes (64 + v % 64) (omega arith)),
        omega (arith, t.below, t.top_below, t.whole, t.written (64 + v % 64), hb),
      )
