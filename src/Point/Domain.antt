-- ===== src/Point/Domain.antt =====
-- Field elements by the numbers that they stand for, modulo the prime of a curve.
use mcu_crypto_asm.Base.{
  ℕ, ◌+◌, ◌-◌, ◌*◌, ◌/◌, ◌%◌, ◌^◌, ◌≡◌, ◌↔◌, refl, ap, sym, ◌∙◌, arith, length, replicate,
  length-replicate, Cong, Cong-mul, true, false, Bool-cases, inl, inr,
}
use native.Mathlib.Nat.{mod-eq_of_lt}
use mcu_crypto_asm.Bignum.Value.{value, radix, value-injective}
use mcu_crypto_asm.Bignum.Power.{IsPow-one}
use mcu_crypto_asm.Curve.{Params, CurveParams}
use mcu_crypto_asm.Curve.Constants.{p256, p384, p256_p, p384_p}
use mcu_crypto_asm.Curve.Moduli.{p256_field-IsModulus, p384_field-IsModulus}
use mcu_crypto_asm.Fe.{Fe, invert, sqrt, ct_eq, is_zero}
use mcu_crypto_asm.Fe.Inverse.{IsField, sqrt_8-Pow, sqrt_12-Pow}
use mcu_crypto_asm.Fe.Root.{cand, IsAnswer, sqrt-p256, sqrt-p384}
use mcu_crypto_asm.Fe.Domain.{replicate_zero}
use mcu_crypto_asm.Fe.Compare.{is_zero_iff, ct_eq_iff}
use mcu_crypto_asm.Fe.Laws.{
  Stands, to_int-Holds, invert_p256-Stands, invert_p384-Stands, p256-IsField, p384-IsField,
}

module _ (f : Params) (h : IsField f) where
  abbrev prime : ℕ
  prime = value f.p

  -- An element stands for every number of its residue class.
  pub Stands-Cong : (x y : ℕ) {v : Fe} → Cong prime x y → Stands f h x v → Stands f h y v
  Stands-Cong x y e s = record {
    size = s.size;
    limbs = s.limbs;
    number = s.number ∙ Cong-mul prime (radix (length f.p)) (radix (length f.p)) x y refl e;
  }

  pub Stands-unique : (x y : ℕ) {v : Fe} → Stands f h x v → Stands f h y v → Cong prime x y
  Stands-unique x y {v} s t = sym (to_int-Holds f h x v s).number ∙ (to_int-Holds f h y v t).number

  -- Elements are equal exactly when they stand for the same residue.
  pub Stands-eq_iff :
      (x y : ℕ) (v w : Fe) → Stands f h x v → Stands f h y w → (v ≡ w) ↔ Cong prime x y
  Stands-eq_iff x y v w s t = (
    (λ e. Stands-unique x y s (rw e t)),
    (λ e.
        let s' = Stands-Cong x y e s in
        value-injective v w (s.size ∙ sym t.size) s.limbs t.limbs (s'.number ∙ sym t.number)),
  )

  pub ct_eq-Stands :
      (x y : ℕ) (v w : Fe) → Stands f h x v → Stands f h y w → (ct_eq v w ≡ true) ↔ Cong prime x y
  ct_eq-Stands x y v w s t =
      let test = ct_eq_iff v w (s.size ∙ sym t.size) in
      let same = Stands-eq_iff x y v w s t in ((λ e. same.0 (test.0 e)), (λ e. test.1 (same.1 e)))

  pub zero-Stands : Stands f h 0 (replicate f.n 0)
  zero-Stands =
      let (l, v) = replicate_zero f.n in
      let nothing : radix (length f.p) * 0 ≡ 0 = omega arith in
      record {
        size = length-replicate f.n 0 ∙ h.size;
        limbs = l;
        number =
            v
            ∙ sym (ap (λ t. t % prime) nothing ∙ mod-eq_of_lt (omega (arith, h.modulus.positive)));
      }

  -- `is_zero` is true exactly of what stands for a multiple of the prime.
  pub is_zero-Stands : (x : ℕ) (v : Fe) → Stands f h x v → (is_zero v ≡ true) ↔ Cong prime x 0
  is_zero-Stands x v s =
      let zero = zero-Stands in
      let (l, e) = replicate_zero f.n in
      let same = Stands-eq_iff x 0 v (replicate f.n 0) s zero in
      (
        (λ t. same.0 (
            value-injective v (replicate f.n 0) (s.size ∙ sym zero.size) s.limbs l
              ((is_zero_iff v).0 t ∙ sym e))),
        (λ t. (is_zero_iff v).1 (ap value (same.1 t) ∙ e)),
      )

  pub is_zero-nonzero : (x : ℕ) (v : Fe) → Stands f h x v → ¬ Cong prime x 0 → is_zero v ≡ false
  is_zero-nonzero x v s nonzero = elim (Bool-cases (is_zero v)) [
    | inl t ↦ absurd (nonzero ((is_zero-Stands x v s).0 t))
    | inr t ↦ t
  ]

-- What the code relies on of a curve: its field, the Montgomery forms of one and of the
-- coefficient, and the chains that invert and take roots.
pub record IsCurve (c : CurveParams) : Type 0 where
  pub field : IsField c.field
  pub one : Stands c.field field 1 c.field.one
  pub b : ℕ
  pub b_stands : Stands c.field field b c.b_mont
  pub inverse :
      (x : ℕ) (v : Fe)
      → Stands c.field field x v
      → Stands c.field field (x ^ (value c.field.p - 2)) (invert c.field v)
  pub odd : value c.field.p % 2 ≡ 1
  pub root :
      (x : ℕ) (v : Fe)
      → Stands c.field field x v
      → Stands c.field field (x ^ ((value c.field.p + 1) / 4)) (cand c.field v)
  pub answers : (x : ℕ) (v : Fe) → Stands c.field field x v → IsAnswer c.field v (sqrt c.field v)

-- The Montgomery forms of one and of the coefficient.
pub p256_one : Stands p256.field p256-IsField 1 p256.field.one
p256_one = record { size = refl; limbs = omega arith; number = refl }

abbrev pub p256_b : ℕ
p256_b = 0x5ac635d8aa3a93e7b3ebbd55769886bc651d06b0cc53b0f63bce3c3e27d2604b

pub p256_b-Stands : Stands p256.field p256-IsField p256_b p256.b_mont
p256_b-Stands = record { size = refl; limbs = omega arith; number = refl }

pub p256_root :
    (x : ℕ) (v : Fe)
    → Stands p256.field p256-IsField x v
    → Stands p256.field p256-IsField (x ^ ((value p256_p + 1) / 4)) (cand p256.field v)
p256_root x v s =
    (sqrt_8-Pow p256.field p256_field-IsModulus x v
      (IsPow-one _ _ _ p256_field-IsModulus x s)).power

abbrev pub p256-IsCurve : IsCurve p256
p256-IsCurve = record {
  field = p256-IsField;
  one = p256_one;
  b = p256_b;
  b_stands = p256_b-Stands;
  inverse = invert_p256-Stands;
  odd = refl;
  root = p256_root;
  answers = sqrt-p256;
}

-- The Montgomery forms of one and of the coefficient.
pub p384_one : Stands p384.field p384-IsField 1 p384.field.one
p384_one = record { size = refl; limbs = omega arith; number = refl }

abbrev pub p384_b : ℕ
p384_b =
    0xb3312fa7e23ee7e4988e056be3f82d19181d9c6efe8141120314088f5013875ac656398d8a2ed19d2a85c8edd3ec2aef

pub p384_b-Stands : Stands p384.field p384-IsField p384_b p384.b_mont
p384_b-Stands = record { size = refl; limbs = omega arith; number = refl }

pub p384_root :
    (x : ℕ) (v : Fe)
    → Stands p384.field p384-IsField x v
    → Stands p384.field p384-IsField (x ^ ((value p384_p + 1) / 4)) (cand p384.field v)
p384_root x v s =
    (sqrt_12-Pow p384.field p384_field-IsModulus x v
      (IsPow-one _ _ _ p384_field-IsModulus x s)).power

abbrev pub p384-IsCurve : IsCurve p384
p384-IsCurve = record {
  field = p384-IsField;
  one = p384_one;
  b = p384_b;
  b_stands = p384_b-Stands;
  inverse = invert_p384-Stands;
  odd = refl;
  root = p384_root;
  answers = sqrt-p384;
}
