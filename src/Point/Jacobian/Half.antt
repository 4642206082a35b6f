-- ===== src/Point/Jacobian/Half.antt =====
-- Halving in the field: `div2` of src/fe.rs on what an element stands for.
use mcu_crypto_asm.Base.{
  ℕ, ◌+◌, ◌*◌, ◌/◌, ◌%◌, ◌≡◌, ap, sym, ◌∙◌, arith, length, Cong, Cong-add_mul, Cong-cancel,
}
use native.Mathlib.Nat.{mod-eq_of_lt, mod-lt}
use mcu_crypto_asm.Bignum.Value.{value, radix}
use mcu_crypto_asm.Bignum.Halve.{div2_n-IsHalf}
use mcu_crypto_asm.Curve.{CurveParams}
use mcu_crypto_asm.Fe.{Fe, div2}
use mcu_crypto_asm.Fe.Laws.{Stands}
use mcu_crypto_asm.Point.Domain.{IsCurve}

module _ (c : CurveParams) (k : IsCurve c) where
  abbrev prime : ℕ
  prime = value c.field.p

  -- `1 / 2`
  abbrev pub half : ℕ
  half = (prime + 1) / 2

  pub div2-Stands :
      (x : ℕ) (v : Fe)
      → Stands c.field k.field x v
      → Stands c.field k.field (x * half) (div2 c.field v)
  unfolding div2
  div2-Stands x v s =
      let r = radix (length c.field.p) in
      let positive = k.field.modulus.positive in
      let below = mod-lt (r * x) {m = prime} (omega (arith, positive)) in
      let out =
        div2_n-IsHalf v c.field.p s.size s.limbs k.field.modulus.limbs
          (omega (arith, s.number, below)) k.odd in
      let two : half * 2 ≡ prime + 1 = omega (arith, k.odd) in
      let unit : Cong prime (half * 2) 1 =
        ap (λ t. t % prime) (omega (arith, two)) ∙ Cong-add_mul prime 1 1 in
      let whole : 2 * (r * (x * half)) ≡ r * x + r * x * prime =
        omega (arith, ap (λ t. r * x * t) two) in
      let w = value (div2 c.field v) in
      let same : Cong prime w (r * (x * half)) = Cong-cancel prime 2 half w (r * (x * half)) unit (
        out.double
        ∙ s.number
        ∙ sym (ap (λ t. t % prime) whole ∙ Cong-add_mul prime (r * x) (r * x))) in
      record { size = out.size; limbs = out.limbs; number = sym (mod-eq_of_lt out.below) ∙ same }
