-- ===== src/Rsa.antt =====
-- src/rsa.rs: modular exponentiation with a public exponent, in portable code. Numbers are little-endian
-- arrays of 32-bit limbs, the exponent is big-endian bytes.
pub mod Inverse
pub mod Select
pub mod Exponent
pub mod Radix
pub mod Modexp
pub mod Public
use mcu_crypto_asm.Base.{
  ℕ, zero, suc, ◌+◌, ◌-◌, ◌*◌, ◌/◌, ◌%◌, ◌^◌, List, [], ◌∷◌, Bool, true, false, not, ◌&&◌, ◌||◌,
}
use mcu_crypto_asm.Base.{
  ltb, ◌==◌, if◌then◌else◌, get_or, length, replicate, u32, u64, bit_and, bit_or, wrapping_sub32,
  wrapping_neg32, ones32,
}
use mcu_crypto_asm.Bignum.{sub_loop, mont_loop, low_limb, zeros}

pub data ModexpError : Type 0 where
  invalid_length : ModexpError
  base_too_large : ModexpError
  modulus_even : ModexpError
  zero_exponent : ModexpError

-- `Result<(), Error>`, with the array that `result` holds when the call returns `Ok`.
pub data ModexpOutcome : Type 0 where
  ok : List ℕ → ModexpOutcome
  err : ModexpError → ModexpOutcome

abbrev wrapping_mul : ℕ → ℕ → ℕ
wrapping_mul x y = u32 (x * y)

pub newton : ℕ → ℕ → ℕ
newton n x = wrapping_mul x (wrapping_sub32 2 (wrapping_mul n x))

pub inv32 : ℕ → ℕ
inv32 n =
    let x = wrapping_sub32 2 n in
    let x = newton n x in
    let x = newton n x in let x = newton n x in let x = newton n x in wrapping_neg32 x

-- `(diff[j] & mask) | (r[j] & !mask)`, limb by limb
pub choose_limbs : ℕ → List ℕ → List ℕ → List ℕ
choose_limbs mask (d ∷ diff) (x ∷ r) =
    bit_or (bit_and d mask) (bit_and x (ones32 - mask)) ∷ choose_limbs mask diff r
choose_limbs mask _ _ = []

-- An `i64` is its bit pattern.
pub sub_m_if_gte : List ℕ → List ℕ → ℕ → List ℕ
sub_m_if_gte r m carry =
    let (diff, borrow) = sub_loop r m 0 in
    let borrow = u64 (borrow + carry) in
    let mask = if ltb borrow (2 ^ 63) then ones32 else 0 in choose_limbs mask diff r

-- The rows and the reduction are those of `mul_mont`, src/backend/portable.rs, with the outer loop over
-- `a`; the final subtraction is that of `sub_m_if_gte`, with `t[N]` as the carry.
pub mont_mul : List ℕ → List ℕ → List ℕ → ℕ → List ℕ
mont_mul a b m mu =
    let t = mont_loop b m mu a (record { low = zeros b; top = 0 }) in sub_m_if_gte t.low m t.top

-- `while exp_slice.len() >= 2 && exp_slice[0] == 0`
pub skip_zeros : List ℕ → List ℕ
skip_zeros (x ∷ y ∷ e) = let rest = skip_zeros (y ∷ e) in if x == 0 then rest else (x ∷ y ∷ e)
skip_zeros e = e

-- `(exp_slice[pos / 8] & (0x80 >> (pos % 8))) != 0`
pub bit_at : List ℕ → ℕ → Bool
bit_at e pos = not (bit_and (get_or e (pos / 8) 0) (0x80 / 2 ^ (pos % 8)) == 0)

-- From `first_bit_pos`, for at most as many turns as the first argument says.
pub find_bit : ℕ → List ℕ → ℕ → ℕ
find_bit zero e pos = pos
find_bit (suc n) e pos = let later = find_bit n e (pos + 1) in if bit_at e pos then pos else later

-- `r2` shifted left by one bit, and the bit out.
pub shift_left : List ℕ → ℕ → List ℕ × ℕ
shift_left [] carry = ([], carry)
shift_left (x ∷ r) carry =
    let (low, out) = shift_left r (x / 2 ^ 31) in (bit_or (u32 (x * 2)) carry ∷ low, out)

pub double_loop : ℕ → List ℕ → List ℕ → List ℕ
double_loop zero m r = r
double_loop (suc n) m r =
    let (low, carry) = shift_left r 0 in double_loop n m (sub_m_if_gte low m carry)

abbrev pub one_limbs : ℕ → List ℕ
one_limbs zero = []
one_limbs (suc n) = 1 ∷ replicate n 0

-- `for bit_pos in (first_bit_pos + 1)..exp_bits`
pub power_loop : ℕ → List ℕ → ℕ → List ℕ → List ℕ → ℕ → List ℕ → List ℕ
power_loop zero e pos base_mont m mu acc = acc
power_loop (suc n) e pos base_mont m mu acc =
    let acc = mont_mul acc acc m mu in
    let acc = if bit_at e pos then mont_mul acc base_mont m mu else acc in
    power_loop n e (pos + 1) base_mont m mu acc

-- What follows the search for the first bit.
pub power : List ℕ → List ℕ → ℕ → List ℕ → List ℕ
power base e first m =
    let exp_bits = length e * 8 in
    let mu = inv32 (low_limb m) in
    let r2 = double_loop (64 * length m) m (one_limbs (length m)) in
    let base_mont = mont_mul base r2 m mu in
    let acc = power_loop (exp_bits - (first + 1)) e (first + 1) base_mont m mu base_mont in
    mont_mul acc (one_limbs (length m)) m mu

pub portable_modexp_public : List ℕ → List ℕ → List ℕ → ModexpOutcome
portable_modexp_public base exponent m =
    if ltb (sub_loop base m 0).1 (2 ^ 63)
    then err base_too_large
    else let e = skip_zeros exponent in
      let first = find_bit (length e * 8) e 0 in
      if first == length e * 8 then ok (one_limbs (length m)) else ok (power base e first m)

-- `N` is the number of limbs of the modulus.
pub modexp_public : List ℕ → List ℕ → List ℕ → ModexpOutcome
modexp_public base exponent m =
    let mod_bytes = length m * 4 in
    if (mod_bytes == 0) || (not (mod_bytes % 32 == 0) || ltb 128 (length m))
    then err invalid_length
    else if low_limb m % 2 == 0
    then err modulus_even
    else portable_modexp_public base exponent m
