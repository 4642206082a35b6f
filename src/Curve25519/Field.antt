-- ===== src/Curve25519/Field.antt =====
-- The field operations of src/curve25519/portable.rs as arithmetic modulo `2 ^ 255 - 19`.
use mcu_crypto_asm.Base.{
  ℕ, ◌+◌, ◌-◌, ◌*◌, ◌%◌, ◌^◌, ◌<◌, ◌≤◌, ◌≡◌, refl, sym, ap, ◌∙◌, arith, u64, Cong, Cong-mul,
  Cong-add,
}
use mcu_crypto_asm.Curve25519.{Fe51, biased, mul, sqr, mul_scalar, add, sub}
use mcu_crypto_asm.Curve25519.Limbs.{
  prime, number, IsCarried, IsLoose, carry_sums_lem, product_le, fits128, residue_of,
}
use native.Mathlib.Nat.{mul-le-mul}

-- The residue that an element stands for, and the arithmetic of residues.
unfoldable pub residue : Fe51 → ℕ
residue a = number a % prime

unfoldable pub add_mod : ℕ → ℕ → ℕ
add_mod a b = (a + b) % prime

unfoldable pub sub_mod : ℕ → ℕ → ℕ
sub_mod a b = (a + (prime - b)) % prime

unfoldable pub mul_mod : ℕ → ℕ → ℕ
mul_mod a b = a * b % prime

mod_twice : (n : ℕ) → Cong prime (n % prime) n
mod_twice n = omega arith

-- Of loose elements the product of the numbers, less a multiple of the prime; no sum overflows.
mul-number :
    (a b : Fe51)
    → IsLoose a
    → IsLoose b
    → IsCarried (mul a b) × (q : ℕ) × (number (mul a b) + q * prime ≡ number a * number b)
unfolding mul
mul-number a b h k =
    let m00 = product_le a.x0 b.x0 h.b0 k.b0 in
    let m01 = product_le a.x0 b.x1 h.b0 k.b1 in
    let m02 = product_le a.x0 b.x2 h.b0 k.b2 in
    let m03 = product_le a.x0 b.x3 h.b0 k.b3 in
    let m04 = product_le a.x0 b.x4 h.b0 k.b4 in
    let m10 = product_le a.x1 b.x0 h.b1 k.b0 in
    let m11 = product_le a.x1 b.x1 h.b1 k.b1 in
    let m12 = product_le a.x1 b.x2 h.b1 k.b2 in
    let m13 = product_le a.x1 b.x3 h.b1 k.b3 in
    let m14 = product_le a.x1 b.x4 h.b1 k.b4 in
    let m20 = product_le a.x2 b.x0 h.b2 k.b0 in
    let m21 = product_le a.x2 b.x1 h.b2 k.b1 in
    let m22 = product_le a.x2 b.x2 h.b2 k.b2 in
    let m23 = product_le a.x2 b.x3 h.b2 k.b3 in
    let m24 = product_le a.x2 b.x4 h.b2 k.b4 in
    let m30 = product_le a.x3 b.x0 h.b3 k.b0 in
    let m31 = product_le a.x3 b.x1 h.b3 k.b1 in
    let m32 = product_le a.x3 b.x2 h.b3 k.b2 in
    let m33 = product_le a.x3 b.x3 h.b3 k.b3 in
    let m34 = product_le a.x3 b.x4 h.b3 k.b4 in
    let m40 = product_le a.x4 b.x0 h.b4 k.b0 in
    let m41 = product_le a.x4 b.x1 h.b4 k.b1 in
    let m42 = product_le a.x4 b.x2 h.b4 k.b2 in
    let m43 = product_le a.x4 b.x3 h.b4 k.b3 in
    let m44 = product_le a.x4 b.x4 h.b4 k.b4 in
    let d0 =
      a.x0 * b.x0 + a.x1 * b.x4 * 19 + a.x2 * b.x3 * 19 + a.x3 * b.x2 * 19 + a.x4 * b.x1 * 19 in
    let d1 = a.x0 * b.x1 + a.x1 * b.x0 + a.x2 * b.x4 * 19 + a.x3 * b.x3 * 19 + a.x4 * b.x2 * 19 in
    let d2 = a.x0 * b.x2 + a.x1 * b.x1 + a.x2 * b.x0 + a.x3 * b.x4 * 19 + a.x4 * b.x3 * 19 in
    let d3 = a.x0 * b.x3 + a.x1 * b.x2 + a.x2 * b.x1 + a.x3 * b.x0 + a.x4 * b.x4 * 19 in
    let d4 = a.x0 * b.x4 + a.x1 * b.x3 + a.x2 * b.x2 + a.x3 * b.x1 + a.x4 * b.x0 in
    let s0 : d0 < 77 * 2 ^ 106 = omega (arith, m00, m14, m23, m32, m41) in
    let s1 : d1 < 77 * 2 ^ 106 = omega (arith, m01, m10, m24, m33, m42) in
    let s2 : d2 < 77 * 2 ^ 106 = omega (arith, m02, m11, m20, m34, m43) in
    let s3 : d3 < 77 * 2 ^ 106 = omega (arith, m03, m12, m21, m30, m44) in
    let s4 : d4 < 6 * 2 ^ 106 = omega (arith, m04, m13, m22, m31, m40) in
    let (small, q, sum) = carry_sums_lem d0 d1 d2 d3 d4 s0 s1 s2 s3 s4 in
    let high =
      a.x1 * b.x4
      + a.x2 * b.x3
      + a.x3 * b.x2
      + a.x4 * b.x1
      + 2 ^ 51 * (a.x2 * b.x4 + a.x3 * b.x3 + a.x4 * b.x2)
      + 2 ^ 102 * (a.x3 * b.x4 + a.x4 * b.x3)
      + 2 ^ 153 * (a.x4 * b.x4) in
    let s4' : d4 < 77 * 2 ^ 106 = omega (arith, s4) in
    rw (fits128 d0 s0, fits128 d1 s1, fits128 d2 s2, fits128 d3 s3, fits128 d4 s4')
      (small, q + high, omega (arith, sum))

-- Of loose elements `mul` gives a carried element of the product's residue.
pub mul_lem :
    {a b : Fe51}
    → IsLoose a
    → IsLoose b
    → IsCarried (mul a b) × (residue (mul a b) ≡ mul_mod (residue a) (residue b))
unfolding residue mul_mod
mul_lem {a} {b} h k =
    let (small, q, sum) = mul-number a b h k in
    (
      small,
      residue_of (number (mul a b)) (number a * number b) q sum
          ∙ sym (
              Cong-mul prime (residue a) (number a) (residue b) (number b) (mod_twice (number a))
                (mod_twice (number b))),
    )

pub sqr_lem :
    {a : Fe51} → IsLoose a → IsCarried (sqr a) × (residue (sqr a) ≡ mul_mod (residue a) (residue a))
unfolding sqr
sqr_lem h = mul_lem h h

scaled_le : (a s : ℕ) → a < 2 ^ 53 → s < 2 ^ 17 → a * s ≤ (2 ^ 53 - 1) * (2 ^ 17 - 1)
scaled_le a s h k = omega (
  arith,
  mul-le-mul {n₁ = a} {m₁ = s} {n₂ = 2 ^ 53 - 1} {m₂ = 2 ^ 17 - 1} (omega (arith, h))
      (omega (arith, k)),
)

pub mul_scalar_lem :
    {a : Fe51} (s : ℕ)
    → IsLoose a
    → s < 2 ^ 17
    → IsCarried (mul_scalar a s) × (residue (mul_scalar a s) ≡ mul_mod (residue a) s)
unfolding mul_scalar residue mul_mod
mul_scalar_lem {a} s h k =
    let m0 = scaled_le a.x0 s h.b0 k in
    let m1 = scaled_le a.x1 s h.b1 k in
    let m2 = scaled_le a.x2 s h.b2 k in
    let m3 = scaled_le a.x3 s h.b3 k in
    let m4 = scaled_le a.x4 s h.b4 k in
    let (small, q, sum) =
      carry_sums_lem (a.x0 * s) (a.x1 * s) (a.x2 * s) (a.x3 * s) (a.x4 * s) (omega (arith, m0))
        (omega (arith, m1)) (omega (arith, m2)) (omega (arith, m3)) (omega (arith, m4)) in
    (
      small,
      residue_of _ (number a * s) q (sum ∙ omega arith)
          ∙ sym (Cong-mul prime (residue a) (number a) s s (mod_twice (number a)) refl),
    )

-- Sums and differences of carried elements are loose.
pub add_lem :
    {a b : Fe51}
    → IsCarried a
    → IsCarried b
    → IsLoose (add a b) × (residue (add a b) ≡ add_mod (residue a) (residue b))
unfolding add residue add_mod
add_lem {a} {b} h k =
    let e0 : u64 (a.x0 + b.x0) ≡ a.x0 + b.x0 = omega (arith, h.b0, k.b0) in
    let e1 : u64 (a.x1 + b.x1) ≡ a.x1 + b.x1 = omega (arith, h.b1, k.b1) in
    let e2 : u64 (a.x2 + b.x2) ≡ a.x2 + b.x2 = omega (arith, h.b2, k.b2) in
    let e3 : u64 (a.x3 + b.x3) ≡ a.x3 + b.x3 = omega (arith, h.b3, k.b3) in
    let e4 : u64 (a.x4 + b.x4) ≡ a.x4 + b.x4 = omega (arith, h.b4, k.b4) in
    rw (e0, e1, e2, e3, e4)
      (
        record {
          b0 = omega (arith, h.b0, k.b0);
          b1 = omega (arith, h.b1, k.b1);
          b2 = omega (arith, h.b2, k.b2);
          b3 = omega (arith, h.b3, k.b3);
          b4 = omega (arith, h.b4, k.b4);
        },
        ap (λ t. t % prime) (omega arith)
            ∙ sym (
                Cong-add prime (residue a) (number a) (residue b) (number b) (mod_twice (number a))
                  (mod_twice (number b))),
      )

-- The bias is twice the prime.
sub-number :
    (a b : Fe51)
    → IsCarried a
    → IsCarried b
    → IsLoose (sub a b) × (number (sub a b) + number b ≡ number a + 2 * prime)
unfolding sub
sub-number a b h k =
    let e0 : biased (0x7ffffffffffed * 2) a.x0 b.x0 ≡ a.x0 + 0x7ffffffffffed * 2 - b.x0 =
      omega (arith, h.b0, k.b0) in
    let e1 : biased (0x7ffffffffffff * 2) a.x1 b.x1 ≡ a.x1 + 0x7ffffffffffff * 2 - b.x1 =
      omega (arith, h.b1, k.b1) in
    let e2 : biased (0x7ffffffffffff * 2) a.x2 b.x2 ≡ a.x2 + 0x7ffffffffffff * 2 - b.x2 =
      omega (arith, h.b2, k.b2) in
    let e3 : biased (0x7ffffffffffff * 2) a.x3 b.x3 ≡ a.x3 + 0x7ffffffffffff * 2 - b.x3 =
      omega (arith, h.b3, k.b3) in
    let e4 : biased (0x7ffffffffffff * 2) a.x4 b.x4 ≡ a.x4 + 0x7ffffffffffff * 2 - b.x4 =
      omega (arith, h.b4, k.b4) in
    rw (e0, e1, e2, e3, e4)
      (
        record {
          b0 = omega (arith, h.b0, k.b0);
          b1 = omega (arith, h.b1, k.b1);
          b2 = omega (arith, h.b2, k.b2);
          b3 = omega (arith, h.b3, k.b3);
          b4 = omega (arith, h.b4, k.b4);
        },
        omega (arith, h.b0, h.b1, h.b2, h.b3, h.b4, k.b0, k.b1, k.b2, k.b3, k.b4),
      )

difference : (d a b : ℕ) → d + b ≡ a + 2 * prime → d % prime ≡ sub_mod (a % prime) (b % prime)
unfolding sub_mod
difference d a b e = omega (arith, e)

pub sub_lem :
    {a b : Fe51}
    → IsCarried a
    → IsCarried b
    → IsLoose (sub a b) × (residue (sub a b) ≡ sub_mod (residue a) (residue b))
unfolding residue
sub_lem {a} {b} h k =
    let (loose, sum) = sub-number a b h k in
    (loose, difference (number (sub a b)) (number a) (number b) sum)
