-- ===== src/Scalar/Inverse.antt =====
-- `invert` on the orders of P-256 and P-384: Fermat's exponent, by an addition chain for its upper half
-- and by nibbles for the lower one.
use mcu_crypto_asm.Base.{
  ℕ, zero, suc, ◌+◌, ◌-◌, ◌*◌, ◌/◌, ◌%◌, ◌^◌, ◌<◌, ◌≡◌, refl, ap, List, length, get_or, arith,
}
use mcu_crypto_asm.Base.{
  Bool-cases, inl, inr, if◌then◌else◌, ◌==◌, ==_iff, false, clash, bit_and_mask, Option, none, some,
}
use mcu_crypto_asm.Bignum.Value.{value}
use mcu_crypto_asm.Bignum.Reduce.{Holds}
use mcu_crypto_asm.Bignum.Power.{IsPow, IsPow-mul, IsPow-one, IsPow-exp}
use mcu_crypto_asm.Curve.{CurveParams}
use mcu_crypto_asm.Curve.Constants.{p256, p384}
use mcu_crypto_asm.Curve.Moduli.{p256_order-IsModulus, p384_order-IsModulus}
use mcu_crypto_asm.Fe.{nibble, or_limbs}
use mcu_crypto_asm.Fe.Compare.{or_limbs_iff}
use mcu_crypto_asm.Scalar.{
  Scalar, mul, sqr, sqr_n, powers, table, nibble_loop, low_limbs, invert_8, invert_12, invert,
  to_int, is_zero,
}
use mcu_crypto_asm.Scalar.Laws.{IsOrder, Stands, to_int-Holds}
use native.Mathlib.Nat.{pow-suc, pow-zero}

-- The exponent that the nibbles below `nib` make of `e`.
abbrev pub nibble_exp : List ℕ → ℕ → ℕ → ℕ
nibble_exp low zero e = e
nibble_exp low (suc nib) e = nibble_exp low nib (e * 2 ^ 4 + nibble low nib)

abbrev top_8 : ℕ
top_8 = (2 ^ 32 - 1) * 2 ^ 32 * 2 ^ 64 + (2 ^ 64 - 1)

module _ (c : CurveParams) (m : IsOrder c) (x : ℕ) where
  abbrev pub Pow : ℕ → List ℕ → Type 0
  Pow e v = IsPow c.order c.order_r2 c.order_n0inv m x e v

  mul-Pow : (e k : ℕ) {a b : List ℕ} → Pow e a → Pow k b → Pow (e + k) (mul c a b)
  unfolding mul
  mul-Pow e k ha hb = IsPow-mul c.order c.order_r2 c.order_n0inv m x e k ha hb

  exp : {e k : ℕ} {a : List ℕ} → e ≡ k → Pow e a → Pow k a
  exp same h = IsPow-exp c.order c.order_r2 c.order_n0inv m x same h

  sqr_n-Pow : (n e : ℕ) (a : List ℕ) → Pow e a → Pow (e * 2 ^ n) (sqr_n c n a)
  unfolding sqr_n sqr
  sqr_n-Pow zero e a h = exp (omega (arith, pow-zero 2)) h
  sqr_n-Pow (suc n) e a h =
      exp (omega (arith, ap (λ (t : ℕ). e * t) (pow-suc 2 n)))
        (sqr_n-Pow n (e + e) (sqr c a) (mul-Pow e e h h))

  step-Pow :
      (n e k : ℕ) {a b : List ℕ} → Pow e a → Pow k b → Pow (e * 2 ^ n + k) (mul c (sqr_n c n a) b)
  step-Pow n e k {a} ha hb = mul-Pow (e * 2 ^ n) k (sqr_n-Pow n e a ha) hb

  powers-Pow :
      (n i e : ℕ) (base cur d : List ℕ)
      → i < n
      → Pow 1 base
      → Pow e cur
      → Pow (i + e) (get_or (powers c n base cur) i d)
  unfolding powers
  powers-Pow zero i e base cur d k hb h = absurd (omega arith)
  powers-Pow (suc n) zero e base cur d k hb h = exp (omega arith) h
  powers-Pow (suc n) (suc i) e base cur d k hb h =
      exp (omega arith)
        (powers-Pow n i (e + 1) base (mul c cur base) d (omega arith) hb (mul-Pow e 1 h hb))

  -- The entry `d` of the table is the power `d`.
  table-Pow : (d : ℕ) (a : List ℕ) → 0 < d → d < 16 → Pow 1 a → Pow d (get_or (table c a) d a)
  unfolding table
  table-Pow zero a k l h = absurd (omega arith)
  table-Pow (suc d) a k l h = exp (omega arith) (powers-Pow 15 d 1 a a a (omega arith) h h)

  nibble-lt : (low : List ℕ) (nib : ℕ) → nibble low nib < 16
  unfolding nibble
  nibble-lt low nib = omega (arith, bit_and_mask 4 (get_or low (nib / 8) 0 / 2 ^ (nib % 8 * 4)))

  nibble_loop-Pow :
      (low a : List ℕ) (nib e : ℕ) (acc : List ℕ)
      → Pow 1 a
      → Pow e acc
      → Pow (nibble_exp low nib e) (nibble_loop c (table c a) low a nib acc)
  unfolding nibble_loop
  nibble_loop-Pow low a zero e acc h k = k
  nibble_loop-Pow low a (suc nib) e acc h k =
      nibble_loop-Pow low a nib (e * 2 ^ 4 + nibble low nib) _ h
        (elim (Bool-cases (nibble low nib == 0)) [
          | inl zero_digit ↦
              rw zero_digit (
                exp (omega (arith, (==_iff (nibble low nib) 0).0 zero_digit)) (sqr_n-Pow 4 e acc k))
          | inr digit ↦ rw digit (
              step-Pow 4 e (nibble low nib) k
                (table-Pow (nibble low nib) a (positive digit) (nibble-lt low nib) h))
        ])
    where
      positive : (nibble low nib == 0) ≡ false → 0 < nibble low nib
      positive digit = ground arith

  invert_8-Pow : (a : List ℕ) → Pow 1 a → Pow (nibble_exp (low_limbs c 4) 32 top_8) (invert_8 c a)
  unfolding invert_8
  invert_8-Pow a h =
      let p2 = step-Pow 1 1 1 h h in
      let p3 = step-Pow 1 3 1 p2 h in
      let p6 = step-Pow 3 7 7 p3 p3 in
      let p12 = step-Pow 6 (2 ^ 6 - 1) (2 ^ 6 - 1) p6 p6 in
      let p15 = step-Pow 3 (2 ^ 12 - 1) 7 p12 p3 in
      let p30 = step-Pow 15 (2 ^ 15 - 1) (2 ^ 15 - 1) p15 p15 in
      let p32 = step-Pow 2 (2 ^ 30 - 1) 3 p30 p2 in
      let p64 = step-Pow 32 (2 ^ 32 - 1) (2 ^ 32 - 1) p32 p32 in
      let acc = sqr_n-Pow 32 (2 ^ 32 - 1) _ p32 in
      nibble_loop-Pow (low_limbs c 4) a 32 top_8 _ h
        (step-Pow 64 ((2 ^ 32 - 1) * 2 ^ 32) (2 ^ 64 - 1) acc p64)

  invert_12-Pow :
      (a : List ℕ) → Pow 1 a → Pow (nibble_exp (low_limbs c 6) 48 (2 ^ 192 - 1)) (invert_12 c a)
  unfolding invert_12
  invert_12-Pow a h =
      let p2 = step-Pow 1 1 1 h h in
      let p3 = step-Pow 1 3 1 p2 h in
      let p6 = step-Pow 3 7 7 p3 p3 in
      let p12 = step-Pow 6 (2 ^ 6 - 1) (2 ^ 6 - 1) p6 p6 in
      let p24 = step-Pow 12 (2 ^ 12 - 1) (2 ^ 12 - 1) p12 p12 in
      let p48 = step-Pow 24 (2 ^ 24 - 1) (2 ^ 24 - 1) p24 p24 in
      let p96 = step-Pow 48 (2 ^ 48 - 1) (2 ^ 48 - 1) p48 p48 in
      let p192 = step-Pow 96 (2 ^ 96 - 1) (2 ^ 96 - 1) p96 p96 in
      nibble_loop-Pow (low_limbs c 6) a 48 (2 ^ 192 - 1) _ h p192

-- What `invert` answers: nothing for zero, and otherwise an array that `to_int` takes to the residue.
pub data IsInverse (c : CurveParams) (v : Scalar) (residue : ℕ) : Option Scalar → Type 0 where
  of_zero : value v ≡ 0 → IsInverse c v residue none
  inverse :
      {w : Scalar}
      → ¬ (value v ≡ 0)
      → Holds (length c.order) residue (to_int c w)
      → IsInverse c v residue (some w)

answer :
    (c : CurveParams) (v w : Scalar) (residue : ℕ)
    → Holds (length c.order) residue (to_int c w)
    → IsInverse c v residue (if is_zero v then none else some w)
unfolding is_zero
answer c v w residue h = elim (Bool-cases (or_limbs 0 v == 0)) [
  | inl zeros ↦ rw zeros (of_zero ((or_limbs_iff v).0 zeros))
  | inr other ↦ rw other (inverse (λ e. clash other ((or_limbs_iff v).1 e)) h)
]

p256_exponent : nibble_exp (low_limbs p256 4) 32 top_8 ≡ value p256.order - 2
unfolding low_limbs nibble
p256_exponent = refl

p384_exponent : nibble_exp (low_limbs p384 6) 48 (2 ^ 192 - 1) ≡ value p384.order - 2
unfolding low_limbs nibble
p384_exponent = refl

-- On P-256, of the Montgomery form of `x`, `Scalar::invert` answers nothing for zero, and
-- otherwise a scalar that `to_int` takes to `x ^ (n - 2)` modulo the order `n`.
pub invert-p256_order :
    (x : ℕ) (v : Scalar)
    → Stands p256 p256_order-IsModulus x v
    → IsInverse p256 v (x ^ (value p256.order - 2) % value p256.order) (invert p256 v)
unfolding invert
invert-p256_order x v s =
    let one = IsPow-one _ _ _ p256_order-IsModulus x s in
    let power = invert_8-Pow p256 p256_order-IsModulus x v one in
    answer p256 v (invert_8 p256 v) (x ^ (value p256.order - 2) % value p256.order) (
      to_int-Holds p256 p256_order-IsModulus (x ^ (value p256.order - 2)) (invert_8 p256 v)
        (exp p256 p256_order-IsModulus x p256_exponent power).power)

-- On P-384, of the Montgomery form of `x`, `Scalar::invert` answers nothing for zero, and
-- otherwise a scalar that `to_int` takes to `x ^ (n - 2)` modulo the order `n`.
pub invert-p384_order :
    (x : ℕ) (v : Scalar)
    → Stands p384 p384_order-IsModulus x v
    → IsInverse p384 v (x ^ (value p384.order - 2) % value p384.order) (invert p384 v)
unfolding invert
invert-p384_order x v s =
    let one = IsPow-one _ _ _ p384_order-IsModulus x s in
    let power = invert_12-Pow p384 p384_order-IsModulus x v one in
    answer p384 v (invert_12 p384 v) (x ^ (value p384.order - 2) % value p384.order) (
      to_int-Holds p384 p384_order-IsModulus (x ^ (value p384.order - 2)) (invert_12 p384 v)
        (exp p384 p384_order-IsModulus x p384_exponent power).power)
