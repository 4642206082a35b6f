-- ===== src/Bignum/Halve.antt =====
-- `div2_n` of src/backend/portable.rs.
use mcu_crypto_asm.Base.{ℕ, zero, suc, ◌+◌, ◌*◌, ◌/◌, ◌%◌, ◌^◌, ◌<◌, ◌≤◌, ◌≡◌, refl, ap, sym, ◌∙◌}
use mcu_crypto_asm.Base.{
  List, [], ◌∷◌, length, arith, bit_and, bit_or, bit_and_mask, u32, wrapping_neg32,
}
use mcu_crypto_asm.Base.{bit_or_sum, bit_or_comm}
use mcu_crypto_asm.Bignum.{add_loop, mask_limbs, div2_n, shift_right, low_limb}
use mcu_crypto_asm.Bignum.Value.{value, radix, IsLimbs}
use mcu_crypto_asm.Bignum.Chains.{add_loop_lem}
use mcu_crypto_asm.Bignum.Reduce.{mask_limbs-ones, mask_limbs-zero, mod_once}
use native.Mathlib.Nat.{mod-eq_of_lt}

shifted_limb : (x y : ℕ) → x < 2 ^ 32 → bit_or (x / 2) (u32 (y * 2 ^ 31)) ≡ x / 2 + y % 2 * 2 ^ 31
shifted_limb x y h =
    ap (bit_or (x / 2)) e
    ∙ bit_or_comm (x / 2) (y % 2 * 2 ^ 31)
    ∙ bit_or_sum 31 (y % 2) (x / 2) (omega arith)
    ∙ omega arith
  where
    e : u32 (y * 2 ^ 31) ≡ y % 2 * 2 ^ 31
    e = omega arith

-- The array and the carry above it, shifted right by one bit; the lowest bit is lost.
pub shift_right_lem :
    (s : List ℕ) (c : ℕ)
    → IsLimbs s
    → c ≤ 1
    → 0 < length s
    → (length (shift_right s c) ≡ length s)
      × IsLimbs (shift_right s c)
      × (2 * value (shift_right s c) + low_limb s % 2 ≡ value s + radix (length s) * c)
unfolding shift_right
shift_right_lem [] c h k n = absurd (omega arith)
shift_right_lem (x ∷ []) c (hx, h) k n =
    let e = shifted_limb x c hx in (refl, (omega (arith, e), tt), omega (arith, e))
shift_right_lem (x ∷ y ∷ s) c (hx, h) k n =
    let e = shifted_limb x y hx in
    let (m, l, v) = shift_right_lem (y ∷ s) c h k (omega arith) in
    (ap suc m, (omega (arith, e), l), omega (arith, e, v))

-- `p & mask`, the mask made from a bit.
masked_value :
    (bo : ℕ) (p : List ℕ)
    → bo ≤ 1
    → IsLimbs p
    → (length (mask_limbs (wrapping_neg32 bo) p) ≡ length p)
      × IsLimbs (mask_limbs (wrapping_neg32 bo) p)
      × (value (mask_limbs (wrapping_neg32 bo) p) ≡ bo * value p)
masked_value zero p k h = let (n, l, v) = mask_limbs-zero p in (n, l, omega (arith, v))
masked_value (suc zero) p k h = rw (mask_limbs-ones p h) (refl, h, omega arith)
masked_value (suc (suc bo)) p k h = absurd (omega arith)

-- An array of `n` limbs that is `a / 2` modulo `p`.
pub record IsHalf (n a p : ℕ) (r : List ℕ) : Type 0 where
  pub size : length r ≡ n
  pub limbs : IsLimbs r
  pub below : value r < p
  pub double : (2 * value r) % p ≡ a

half_value : (r a p bo : ℕ) → bo ≤ 1 → 2 * r ≡ a + bo * p → a < p → (r < p) × ((2 * r) % p ≡ a)
half_value r a p zero k e h =
    let same : 2 * r ≡ a = omega arith in (omega arith, ap (λ t. t % p) same ∙ mod-eq_of_lt h)
half_value r a p (suc zero) k e h = (
  omega arith,
  omega (arith, mod_once (2 * r) p (omega arith) (omega arith), mod-eq_of_lt {n = a} {m = p} h),
)
half_value r a p (suc (suc bo)) k e h = absurd (omega arith)

module _ (va vp : ℕ) (odd : vp % 2 ≡ 1) where
  halves : (bo v l : ℕ) → bo ≤ 1 → va % 2 ≡ bo → 2 * v + l % 2 ≡ va + bo * vp → 2 * v ≡ va + bo * vp
  halves zero v l k e f = omega arith
  halves (suc zero) v l k e f = omega arith
  halves (suc (suc bo)) v l k e f = absurd (omega arith)

parity : (a : List ℕ) → low_limb a % 2 ≡ value a % 2
parity [] = refl
parity (x ∷ a) = omega arith

-- For an odd modulus and an argument below it, `div2_n` writes a reduced array of limbs whose
-- double is the argument modulo the modulus.
pub div2_n-IsHalf :
    (a p : List ℕ)
    → length a ≡ length p
    → IsLimbs a
    → IsLimbs p
    → value a < value p
    → value p % 2 ≡ 1
    → IsHalf (length p) (value a) (value p) (div2_n a p)
unfolding div2_n
div2_n-IsHalf a p n ha hp small odd =
    let bit : bit_and (low_limb a) 1 ≡ value a % 2 = bit_and_mask 1 (low_limb a) ∙ parity a in
    rw (bit, div2_n) (halved (value a % 2) refl (omega arith))
  where
    halved :
        (bo : ℕ)
        → value a % 2 ≡ bo
        → bo ≤ 1
        → IsHalf (length p) (value a) (value p) (
            shift_right
              (add_loop a (mask_limbs (wrapping_neg32 bo) p) 0).0
              (u32 (add_loop a (mask_limbs (wrapping_neg32 bo) p) 0).1))
    halved bo e k =
        let (nm, lm, vm) = masked_value bo p k hp in
        let m = mask_limbs (wrapping_neg32 bo) p in
        let sum = add_loop_lem a m 0 (n ∙ sym nm) ha lm (omega arith) in
        let carry : u32 (add_loop a m 0).1 ≡ (add_loop a m 0).1 = omega (arith, sum.0.bit) in
        let (sn, sl, sv) =
          shift_right_lem (add_loop a m 0).0 (add_loop a m 0).1 sum.0.limbs sum.0.bit
            (omega (arith, sum.0.size, n, positive p odd)) in
        let total : 2 * value (shift_right (add_loop a m 0).0 (add_loop a m 0).1)
            ≡ value a + bo * value p =
          halves (value a) (value p) odd bo
            (value (shift_right (add_loop a m 0).0 (add_loop a m 0).1))
            (low_limb (add_loop a m 0).0) k e
            (omega (arith, sv, sum.1, vm, ap (λ k. radix k * (add_loop a m 0).1) sum.0.size)) in
        let (below, double) = half_value _ (value a) (value p) bo k total small in
        rw carry (record { size = sn ∙ sum.0.size ∙ n; limbs = sl; below = below; double = double })
      where
        positive : (q : List ℕ) → value q % 2 ≡ 1 → 0 < length q
        positive [] e = absurd (omega arith)
        positive (x ∷ q) e = omega arith
