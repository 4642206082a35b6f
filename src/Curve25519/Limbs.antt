-- ===== src/Curve25519/Limbs.antt =====
-- The field operations of src/curve25519/portable.rs on the numbers of their limbs.
use mcu_crypto_asm.Base.{
  ℕ, ◌+◌, ◌-◌, ◌*◌, ◌/◌, ◌%◌, ◌^◌, ◌<◌, ◌≤◌, ◌≡◌, refl, sym, ap, ◌∙◌, arith, u64, bit_and_mask,
  bit_and, bit_or, bit_or_comm, bit_or_sum, Cong-add_mul,
}
use mcu_crypto_asm.Curve25519.{Fe51, low51, u128, carry_sums, mask51}
use native.Mathlib.Nat.{mul-le-mul, mod-eq_of_lt}

abbrev pub prime : ℕ
prime = 2 ^ 255 - 19

abbrev pub number : Fe51 → ℕ
number a = a.x0 + 2 ^ 51 * a.x1 + 2 ^ 102 * a.x2 + 2 ^ 153 * a.x3 + 2 ^ 204 * a.x4

-- Limbs of 51 bits, the second one with a small carry on top.
pub record IsCarried (a : Fe51) : Type 0 where
  pub b0 : a.x0 < 2 ^ 51
  pub b1 : a.x1 < 2 ^ 51 + 2 ^ 13
  pub b2 : a.x2 < 2 ^ 51
  pub b3 : a.x3 < 2 ^ 51
  pub b4 : a.x4 < 2 ^ 51

-- What sums and differences of carried elements stay below.
pub record IsLoose (a : Fe51) : Type 0 where
  pub b0 : a.x0 < 2 ^ 53
  pub b1 : a.x1 < 2 ^ 53
  pub b2 : a.x2 < 2 ^ 53
  pub b3 : a.x3 < 2 ^ 53
  pub b4 : a.x4 < 2 ^ 53

pub IsCarried-IsLoose : {a : Fe51} → IsCarried a → IsLoose a
IsCarried-IsLoose h = record {
  b0 = omega (arith, h.b0);
  b1 = omega (arith, h.b1);
  b2 = omega (arith, h.b2);
  b3 = omega (arith, h.b3);
  b4 = omega (arith, h.b4);
}

low51_lem : (d : ℕ) → low51 d ≡ d % 2 ^ 51
low51_lem d = bit_and_mask 51 (u64 d) ∙ omega arith

-- The carries without the machine's word sizes.
carried : (d0 e1 e2 e3 e4 : ℕ) → Fe51
carried d0 e1 e2 e3 e4 =
    let s0 = d0 % 2 ^ 51 + e4 / 2 ^ 51 * 19 in
    record {
      x0 = s0 % 2 ^ 51;
      x1 = e1 % 2 ^ 51 + s0 / 2 ^ 51;
      x2 = e2 % 2 ^ 51;
      x3 = e3 % 2 ^ 51;
      x4 = e4 % 2 ^ 51;
    }

carried_lem :
    (d0 e1 e2 e3 e4 : ℕ)
    → e4 < 7 * 2 ^ 106
    → IsCarried (carried d0 e1 e2 e3 e4)
      × (number (carried d0 e1 e2 e3 e4) + e4 / 2 ^ 51 * prime
          ≡ d0 % 2 ^ 51
            + 2 ^ 51 * (e1 % 2 ^ 51)
            + 2 ^ 102 * (e2 % 2 ^ 51)
            + 2 ^ 153 * (e3 % 2 ^ 51)
            + 2 ^ 204 * e4)
unfolding carried
carried_lem d0 e1 e2 e3 e4 b4 = (
  record {
    b0 = omega arith;
    b1 = omega arith;
    b2 = omega arith;
    b3 = omega arith;
    b4 = omega arith;
  },
  omega arith,
)

carry_sums-eq-carried :
    (d0 d1 d2 d3 d4 e1 e2 e3 e4 : ℕ)
    → e1 ≡ d1 + d0 / 2 ^ 51
    → e2 ≡ d2 + e1 / 2 ^ 51
    → e3 ≡ d3 + e2 / 2 ^ 51
    → e4 ≡ d4 + e3 / 2 ^ 51
    → e1 < 2 ^ 113
    → e2 < 2 ^ 113
    → e3 < 2 ^ 113
    → e4 < 7 * 2 ^ 106
    → carry_sums d0 d1 d2 d3 d4 ≡ carried d0 e1 e2 e3 e4
unfolding carry_sums carried
carry_sums-eq-carried d0 d1 d2 d3 d4 e1 e2 e3 e4 p1 p2 p3 p4 c1 c2 c3 c4 =
    let a1 : u128 (d1 + d0 / 2 ^ 51) ≡ e1 = omega arith in
    let a2 : u128 (d2 + e1 / 2 ^ 51) ≡ e2 = omega arith in
    let a3 : u128 (d3 + e2 / 2 ^ 51) ≡ e3 = omega arith in
    let a4 : u128 (d4 + e3 / 2 ^ 51) ≡ e4 = omega arith in
    let s0 = d0 % 2 ^ 51 + e4 / 2 ^ 51 * 19 in
    let a0 : u128 (d0 % 2 ^ 51 + u128 (e4 / 2 ^ 51 * 19)) ≡ s0 = omega arith in
    let a5 : u64 (e1 % 2 ^ 51 + u64 (s0 / 2 ^ 51)) ≡ e1 % 2 ^ 51 + s0 / 2 ^ 51 = omega arith in
    rw
      (
        a1,
        a2,
        a3,
        a4,
        low51_lem d0,
        a0,
        low51_lem s0,
        low51_lem e1,
        a5,
        low51_lem e2,
        low51_lem e3,
        low51_lem e4,
      )
      refl

-- Sums that `u128` holds with room to spare are carried, less a multiple of the prime.
pub carry_sums_lem :
    (d0 d1 d2 d3 d4 : ℕ)
    → d0 < 77 * 2 ^ 106
    → d1 < 77 * 2 ^ 106
    → d2 < 77 * 2 ^ 106
    → d3 < 77 * 2 ^ 106
    → d4 < 6 * 2 ^ 106
    → IsCarried (carry_sums d0 d1 d2 d3 d4)
      × (q : ℕ) × (number (carry_sums d0 d1 d2 d3 d4) + q * prime
          ≡ d0 + 2 ^ 51 * d1 + 2 ^ 102 * d2 + 2 ^ 153 * d3 + 2 ^ 204 * d4)
carry_sums_lem d0 d1 d2 d3 d4 b0 b1 b2 b3 b4 =
    steps (d1 + d0 / 2 ^ 51) _ _ _ refl refl refl refl (omega arith) (omega arith) (omega arith)
      (omega arith)
  where
    steps :
        (e1 e2 e3 e4 : ℕ)
        → e1 ≡ d1 + d0 / 2 ^ 51
        → e2 ≡ d2 + e1 / 2 ^ 51
        → e3 ≡ d3 + e2 / 2 ^ 51
        → e4 ≡ d4 + e3 / 2 ^ 51
        → e1 < 2 ^ 113
        → e2 < 2 ^ 113
        → e3 < 2 ^ 113
        → e4 < 7 * 2 ^ 106
        → IsCarried (carry_sums d0 d1 d2 d3 d4)
          × (q : ℕ) × (number (carry_sums d0 d1 d2 d3 d4) + q * prime
              ≡ d0 + 2 ^ 51 * d1 + 2 ^ 102 * d2 + 2 ^ 153 * d3 + 2 ^ 204 * d4)
    steps e1 e2 e3 e4 p1 p2 p3 p4 c1 c2 c3 c4 =
        let (small, sum) = carried_lem d0 e1 e2 e3 e4 c4 in
        rw (carry_sums-eq-carried d0 d1 d2 d3 d4 e1 e2 e3 e4 p1 p2 p3 p4 c1 c2 c3 c4)
          (small, e4 / 2 ^ 51, sum ∙ omega arith)

pub product_le : (a b : ℕ) → a < 2 ^ 53 → b < 2 ^ 53 → a * b ≤ (2 ^ 53 - 1) * (2 ^ 53 - 1)
product_le a b h k =
    mul-le-mul {n₂ = 2 ^ 53 - 1} {m₂ = 2 ^ 53 - 1} (omega (arith, h)) (omega (arith, k))

pub fits128 : (d : ℕ) → d < 77 * 2 ^ 106 → u128 d ≡ d
fits128 d h = mod-eq_of_lt {n = d} {m = 2 ^ 128} (omega arith)

-- The residue of a number that is short of another by multiples of the prime.
pub residue_of : (n m q : ℕ) → n + q * prime ≡ m → n % prime ≡ m % prime
residue_of n m q e = sym (Cong-add_mul prime n q) ∙ ap (λ t. t % prime) e

-- `r | (q << k)`, with room for `r`.
pub join : (k q r : ℕ) → r < 2 ^ k → bit_or r (q * 2 ^ k) ≡ r + q * 2 ^ k
join k q r h = bit_or_comm r (q * 2 ^ k) ∙ bit_or_sum k q r h ∙ omega arith

pub low_bits : (x : ℕ) → bit_and x mask51 ≡ x % 2 ^ 51
low_bits x = bit_and_mask 51 x
