-- ===== src/Poly1305/Multiply.antt =====
-- The multiplication by the key, of `process_block` in src/poly1305.rs.
use mcu_crypto_asm.Base.{
  ℕ, ◌+◌, ◌-◌, ◌*◌, ◌/◌, ◌%◌, ◌^◌, ◌<◌, ◌≤◌, ◌≡◌, refl, ◌∙◌, arith, u32, u64, List, [], ◌∷◌,
}
use mcu_crypto_asm.Base.{bit_and_mask}
use mcu_crypto_asm.Poly1305.{Five, low26, carry_chain, mul_reduce}
use native.Mathlib.Nat.{mul-le-mul, mod-eq_of_lt}

abbrev pub number : Five → ℕ
number h = h.x0 + 2 ^ 26 * h.x1 + 2 ^ 52 * h.x2 + 2 ^ 78 * h.x3 + 2 ^ 104 * h.x4

-- Limbs of 26 bits, the second one with a small carry on top.
pub record IsReduced (h : Five) : Type 0 where
  pub b0 : h.x0 < 2 ^ 26
  pub b1 : h.x1 < 2 ^ 26 + 2 ^ 7
  pub b2 : h.x2 < 2 ^ 26
  pub b3 : h.x3 < 2 ^ 26
  pub b4 : h.x4 < 2 ^ 26

low26_lem : (d : ℕ) → low26 d ≡ d % 2 ^ 26
low26_lem d = bit_and_mask 26 (u32 d) ∙ omega arith

-- The carries without the machine's word sizes.
carried : (d0 e1 e2 e3 e4 : ℕ) → Five
carried d0 e1 e2 e3 e4 =
    let h0 = d0 % 2 ^ 26 + e4 / 2 ^ 26 * 5 in
    record {
      x0 = h0 % 2 ^ 26;
      x1 = e1 % 2 ^ 26 + h0 / 2 ^ 26;
      x2 = e2 % 2 ^ 26;
      x3 = e3 % 2 ^ 26;
      x4 = e4 % 2 ^ 26;
    }

carried_lem :
    (d0 e1 e2 e3 e4 : ℕ)
    → e4 < 7 * 2 ^ 53
    → IsReduced (carried d0 e1 e2 e3 e4)
      × (number (carried d0 e1 e2 e3 e4) + e4 / 2 ^ 26 * (2 ^ 130 - 5)
          ≡ d0 % 2 ^ 26
            + 2 ^ 26 * (e1 % 2 ^ 26)
            + 2 ^ 52 * (e2 % 2 ^ 26)
            + 2 ^ 78 * (e3 % 2 ^ 26)
            + 2 ^ 104 * e4)
unfolding carried
carried_lem d0 e1 e2 e3 e4 b4 = (
  record {
    b0 = omega arith;
    b1 = omega arith;
    b2 = omega arith;
    b3 = omega arith;
    b4 = omega arith;
  },
  omega arith,
)

carry_chain-eq-carried :
    (d0 d1 d2 d3 d4 e1 e2 e3 e4 : ℕ)
    → d0 < 22 * 2 ^ 53
    → d4 < 6 * 2 ^ 53
    → e1 ≡ d1 + d0 / 2 ^ 26
    → e2 ≡ d2 + e1 / 2 ^ 26
    → e3 ≡ d3 + e2 / 2 ^ 26
    → e4 ≡ d4 + e3 / 2 ^ 26
    → e1 < 23 * 2 ^ 53
    → e2 < 23 * 2 ^ 53
    → e3 < 23 * 2 ^ 53
    → e4 < 7 * 2 ^ 53
    → carry_chain d0 d1 d2 d3 d4 ≡ carried d0 e1 e2 e3 e4
unfolding carry_chain carried
carry_chain-eq-carried d0 d1 d2 d3 d4 e1 e2 e3 e4 b0 b4 p1 p2 p3 p4 c1 c2 c3 c4 =
    let a1 : u64 (d1 + u32 (d0 / 2 ^ 26)) ≡ e1 = omega arith in
    let a2 : u64 (d2 + u32 (e1 / 2 ^ 26)) ≡ e2 = omega arith in
    let a3 : u64 (d3 + u32 (e2 / 2 ^ 26)) ≡ e3 = omega arith in
    let a4 : u64 (d4 + u32 (e3 / 2 ^ 26)) ≡ e4 = omega arith in
    let h0 = d0 % 2 ^ 26 + e4 / 2 ^ 26 * 5 in
    let a5 : u32 (d0 % 2 ^ 26 + u32 (u32 (e4 / 2 ^ 26) * 5)) ≡ h0 = omega arith in
    let a6 : u32 (e1 % 2 ^ 26 + h0 / 2 ^ 26) ≡ e1 % 2 ^ 26 + h0 / 2 ^ 26 = omega arith in
    rw (
      a1,
      a2,
      a3,
      a4,
      low26_lem d0,
      low26_lem e1,
      low26_lem e2,
      low26_lem e3,
      low26_lem e4,
      a5,
      a6,
      bit_and_mask 26 h0,
    )

-- The carries keep the number modulo `2 ^ 130 - 5`.
carry_chain_lem :
    (d0 d1 d2 d3 d4 : ℕ)
    → d0 < 22 * 2 ^ 53
    → d1 < 22 * 2 ^ 53
    → d2 < 22 * 2 ^ 53
    → d3 < 22 * 2 ^ 53
    → d4 < 6 * 2 ^ 53
    → IsReduced (carry_chain d0 d1 d2 d3 d4)
      × (q : ℕ) × (number (carry_chain d0 d1 d2 d3 d4) + q * (2 ^ 130 - 5)
          ≡ d0 + 2 ^ 26 * d1 + 2 ^ 52 * d2 + 2 ^ 78 * d3 + 2 ^ 104 * d4)
carry_chain_lem d0 d1 d2 d3 d4 b0 b1 b2 b3 b4 =
    steps (d1 + d0 / 2 ^ 26) _ _ _ refl refl refl refl (omega arith) (omega arith) (omega arith)
      (omega arith)
  where
    steps :
        (e1 e2 e3 e4 : ℕ)
        → e1 ≡ d1 + d0 / 2 ^ 26
        → e2 ≡ d2 + e1 / 2 ^ 26
        → e3 ≡ d3 + e2 / 2 ^ 26
        → e4 ≡ d4 + e3 / 2 ^ 26
        → e1 < 23 * 2 ^ 53
        → e2 < 23 * 2 ^ 53
        → e3 < 23 * 2 ^ 53
        → e4 < 7 * 2 ^ 53
        → IsReduced (carry_chain d0 d1 d2 d3 d4)
          × (q : ℕ) × (number (carry_chain d0 d1 d2 d3 d4) + q * (2 ^ 130 - 5)
              ≡ d0 + 2 ^ 26 * d1 + 2 ^ 52 * d2 + 2 ^ 78 * d3 + 2 ^ 104 * d4)
    steps e1 e2 e3 e4 p1 p2 p3 p4 c1 c2 c3 c4 =
        let (reduced, sum) = carried_lem d0 e1 e2 e3 e4 c4 in
        rw (carry_chain-eq-carried d0 d1 d2 d3 d4 e1 e2 e3 e4 b0 b4 p1 p2 p3 p4 c1 c2 c3 c4)
          (reduced, e4 / 2 ^ 26, sum ∙ omega arith)

-- The limbs after a block has been added.
pub record IsLoaded (h : Five) : Type 0 where
  pub b0 : h.x0 < 2 ^ 27 + 2 ^ 7
  pub b1 : h.x1 < 2 ^ 27 + 2 ^ 7
  pub b2 : h.x2 < 2 ^ 27 + 2 ^ 7
  pub b3 : h.x3 < 2 ^ 27 + 2 ^ 7
  pub b4 : h.x4 < 2 ^ 27 + 2 ^ 7

pub record IsKey (r : Five) (s : List ℕ) : Type 0 where
  pub b0 : r.x0 < 2 ^ 26
  pub b1 : r.x1 < 2 ^ 26
  pub b2 : r.x2 < 2 ^ 26
  pub b3 : r.x3 < 2 ^ 26
  pub b4 : r.x4 < 2 ^ 26
  pub fives : s ≡ r.x1 * 5 ∷ r.x2 * 5 ∷ r.x3 * 5 ∷ r.x4 * 5 ∷ []

product_le : (a b : ℕ) → a < 2 ^ 27 + 2 ^ 7 → b < 2 ^ 26 → a * b ≤ (2 ^ 27 + 2 ^ 7) * 2 ^ 26
product_le a b h k =
    mul-le-mul {n₂ = 2 ^ 27 + 2 ^ 7} {m₂ = 2 ^ 26} (omega (arith, h)) (omega (arith, k))

-- Of a loaded accumulator and a key, no sum of products overflows: `mul_reduce` gives reduced
-- limbs, with the product of the numbers less a multiple of `2 ^ 130 - 5`.
pub mul_reduce_lem :
    (h r : Five) (s : List ℕ)
    → IsLoaded h
    → IsKey r s
    → IsReduced (mul_reduce h r s)
      × (q : ℕ) × (number (mul_reduce h r s) + q * (2 ^ 130 - 5) ≡ number h * number r)
unfolding mul_reduce
mul_reduce_lem h r s b k =
    let m00 = product_le h.x0 r.x0 b.b0 k.b0 in
    let m01 = product_le h.x0 r.x1 b.b0 k.b1 in
    let m02 = product_le h.x0 r.x2 b.b0 k.b2 in
    let m03 = product_le h.x0 r.x3 b.b0 k.b3 in
    let m04 = product_le h.x0 r.x4 b.b0 k.b4 in
    let m10 = product_le h.x1 r.x0 b.b1 k.b0 in
    let m11 = product_le h.x1 r.x1 b.b1 k.b1 in
    let m12 = product_le h.x1 r.x2 b.b1 k.b2 in
    let m13 = product_le h.x1 r.x3 b.b1 k.b3 in
    let m14 = product_le h.x1 r.x4 b.b1 k.b4 in
    let m20 = product_le h.x2 r.x0 b.b2 k.b0 in
    let m21 = product_le h.x2 r.x1 b.b2 k.b1 in
    let m22 = product_le h.x2 r.x2 b.b2 k.b2 in
    let m23 = product_le h.x2 r.x3 b.b2 k.b3 in
    let m24 = product_le h.x2 r.x4 b.b2 k.b4 in
    let m30 = product_le h.x3 r.x0 b.b3 k.b0 in
    let m31 = product_le h.x3 r.x1 b.b3 k.b1 in
    let m32 = product_le h.x3 r.x2 b.b3 k.b2 in
    let m33 = product_le h.x3 r.x3 b.b3 k.b3 in
    let m34 = product_le h.x3 r.x4 b.b3 k.b4 in
    let m40 = product_le h.x4 r.x0 b.b4 k.b0 in
    let m41 = product_le h.x4 r.x1 b.b4 k.b1 in
    let m42 = product_le h.x4 r.x2 b.b4 k.b2 in
    let m43 = product_le h.x4 r.x3 b.b4 k.b3 in
    let m44 = product_le h.x4 r.x4 b.b4 k.b4 in
    let d0 =
      h.x0 * r.x0 + h.x1 * (r.x4 * 5) + h.x2 * (r.x3 * 5) + h.x3 * (r.x2 * 5) + h.x4 * (r.x1 * 5) in
    let d1 =
      h.x0 * r.x1 + h.x1 * r.x0 + h.x2 * (r.x4 * 5) + h.x3 * (r.x3 * 5) + h.x4 * (r.x2 * 5) in
    let d2 = h.x0 * r.x2 + h.x1 * r.x1 + h.x2 * r.x0 + h.x3 * (r.x4 * 5) + h.x4 * (r.x3 * 5) in
    let d3 = h.x0 * r.x3 + h.x1 * r.x2 + h.x2 * r.x1 + h.x3 * r.x0 + h.x4 * (r.x4 * 5) in
    let d4 = h.x0 * r.x4 + h.x1 * r.x3 + h.x2 * r.x2 + h.x3 * r.x1 + h.x4 * r.x0 in
    let s0 : d0 < 22 * 2 ^ 53 = omega (arith, m00, m14, m23, m32, m41) in
    let s1 : d1 < 22 * 2 ^ 53 = omega (arith, m01, m10, m24, m33, m42) in
    let s2 : d2 < 22 * 2 ^ 53 = omega (arith, m02, m11, m20, m34, m43) in
    let s3 : d3 < 22 * 2 ^ 53 = omega (arith, m03, m12, m21, m30, m44) in
    let s4 : d4 < 6 * 2 ^ 53 = omega (arith, m04, m13, m22, m31, m40) in
    let (reduced, q, sum) = carry_chain_lem d0 d1 d2 d3 d4 s0 s1 s2 s3 s4 in
    let high =
      h.x1 * r.x4
      + h.x2 * r.x3
      + h.x3 * r.x2
      + h.x4 * r.x1
      + 2 ^ 26 * (h.x2 * r.x4 + h.x3 * r.x3 + h.x4 * r.x2)
      + 2 ^ 52 * (h.x3 * r.x4 + h.x4 * r.x3)
      + 2 ^ 78 * (h.x4 * r.x4) in
    rw
      (
        k.fives,
        mod-eq_of_lt {n = d0} {m = 2 ^ 64} (omega (arith, s0)),
        mod-eq_of_lt {n = d1} {m = 2 ^ 64} (omega (arith, s1)),
        mod-eq_of_lt {n = d2} {m = 2 ^ 64} (omega (arith, s2)),
        mod-eq_of_lt {n = d3} {m = 2 ^ 64} (omega (arith, s3)),
        mod-eq_of_lt {n = d4} {m = 2 ^ 64} (omega (arith, s4)),
      )
      (reduced, q + high, omega (arith, sum))
