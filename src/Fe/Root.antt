-- ===== src/Fe/Root.antt =====
-- The answers of `sqrt` of src/fe.rs.
use mcu_crypto_asm.Base.{ℕ, List, ◌≡◌, length, sym, ◌∙◌, clash}
use mcu_crypto_asm.Base.{Bool-cases, inl, inr, Option, none, some, if◌then◌else◌, ◌==◌}
use mcu_crypto_asm.Base.{replicate}
use mcu_crypto_asm.Bignum.Value.{value}
use mcu_crypto_asm.Curve.{Params}
use mcu_crypto_asm.Fe.{Fe, sqr, is_zero, ct_eq, sqrt, sqrt_8, sqrt_12, sqrt_bits}
use mcu_crypto_asm.Bignum.Power.{IsPow-one}
use mcu_crypto_asm.Curve.Constants.{p256, p384}
use mcu_crypto_asm.Curve.Moduli.{p256_field-IsModulus, p384_field-IsModulus}
use mcu_crypto_asm.Fe.{sqr_n}
use mcu_crypto_asm.Fe.Inverse.{sqr_n-Pow, sqrt_8-Pow, sqrt_12-Pow}
use mcu_crypto_asm.Fe.Laws.{Stands, p256-IsField, p384-IsField}
use mcu_crypto_asm.Fe.Compare.{is_zero_iff, ct_eq_iff}

-- The candidate of `sqrt`.
abbrev pub cand : Params → Fe → Fe
cand f v = if f.n == 8 then sqrt_8 f v else if f.n == 12 then sqrt_12 f v else sqrt_bits f v

-- The three answers of `sqrt`: zero for zero, the candidate if its square is the argument, and
-- nothing otherwise.
pub data IsAnswer (f : Params) (v : Fe) : Option Fe → Type 0 where
  of_zero : value v ≡ 0 → IsAnswer f v (some (replicate f.n 0))
  found : sqr f (cand f v) ≡ v → IsAnswer f v (some (cand f v))
  nothing : ¬ (value v ≡ 0) → ¬ (sqr f (cand f v) ≡ v) → IsAnswer f v none

sqrt-IsAnswer :
    (f : Params) (v : Fe) → length (sqr f (cand f v)) ≡ length v → IsAnswer f v (sqrt f v)
unfolding sqrt
sqrt-IsAnswer f v n = elim (Bool-cases (is_zero v)) [
  | inl z ↦ rw (z, sqrt) (of_zero ((is_zero_iff v).0 z))
  | inr nz ↦ elim (Bool-cases (ct_eq (sqr f (cand f v)) v)) [
    | inl e ↦ rw (nz, e, sqrt) (found ((ct_eq_iff _ v n).0 e))
    | inr ne ↦
        rw (nz, ne, sqrt)
          (nothing (λ q. clash nz ((is_zero_iff v).1 q)) (λ q. clash ne ((ct_eq_iff _ v n).1 q)))
  ]
]

-- On P-256, of a Montgomery form, `sqrt` answers zero for zero, the candidate exactly when its
-- square is the argument, and nothing otherwise.
pub sqrt-p256 :
    (x : ℕ) (v : List ℕ)
    → Stands p256.field p256-IsField x v
    → IsAnswer p256.field v (sqrt p256.field v)
unfolding sqr_n
sqrt-p256 x v s =
    let h = p256_field-IsModulus in
    let root = sqrt_8-Pow p256.field h x v (IsPow-one _ _ _ h x s) in
    let square = sqr_n-Pow p256.field h x 1 _ _ root in
    sqrt-IsAnswer p256.field v (square.power.size ∙ sym s.size)

-- On P-384, of a Montgomery form, `sqrt` answers zero for zero, the candidate exactly when its
-- square is the argument, and nothing otherwise.
pub sqrt-p384 :
    (x : ℕ) (v : List ℕ)
    → Stands p384.field p384-IsField x v
    → IsAnswer p384.field v (sqrt p384.field v)
unfolding sqr_n
sqrt-p384 x v s =
    let h = p384_field-IsModulus in
    let root = sqrt_12-Pow p384.field h x v (IsPow-one _ _ _ h x s) in
    let square = sqr_n-Pow p384.field h x 1 _ _ root in
    sqrt-IsAnswer p384.field v (square.power.size ∙ sym s.size)
