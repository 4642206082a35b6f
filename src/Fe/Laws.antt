-- ===== src/Fe/Laws.antt =====
-- Field arithmetic through Montgomery form: conversion there and back, products, sums, inverses.
use mcu_crypto_asm.Base.{
  ℕ, ◌+◌, ◌-◌, ◌*◌, ◌%◌, ◌^◌, ◌<◌, ◌≤◌, ◌≡◌, refl, sym, ◌∙◌, List, length, arith,
}
use mcu_crypto_asm.Bignum.Value.{value, IsLimbs, value-injective}
use mcu_crypto_asm.Bignum.Reduce.{Holds}
use mcu_crypto_asm.Bignum.Domain.{Represents, leave-Holds, enter-Represents, mul-Represents}
use mcu_crypto_asm.Bignum.Domain.{add-Represents, sub-Represents}
use mcu_crypto_asm.Bignum.Power.{IsPow-one}
use mcu_crypto_asm.Curve.{Params}
use mcu_crypto_asm.Curve.Constants.{p256, p384, p256_p, p384_p}
use mcu_crypto_asm.Curve.Moduli.{p256_field-IsModulus, p384_field-IsModulus}
use mcu_crypto_asm.Fe.{from_int, to_int, mul, add, sub, sqr, invert}
use mcu_crypto_asm.Fe.{one_limbs}
use mcu_crypto_asm.Fe.Domain.{one_limbs_lem}
use mcu_crypto_asm.Fe.Inverse.{IsField, invert_8-Pow, invert_12-Pow}
use native.Mathlib.Nat.{mod-eq_of_lt}

module _ (f : Params) (h : IsField f) where
  -- `v` is the Montgomery form of `x`.
  abbrev pub Stands : ℕ → List ℕ → Type 0
  Stands x v = Represents f.p f.r2 f.n0inv h.modulus x v

  pub to_int-Holds :
      (x : ℕ) (v : List ℕ) → Stands x v → Holds (length f.p) (x % value f.p) (to_int f v)
  unfolding to_int
  to_int-Holds x v s =
      let (n, l, e) = one_limbs_lem f.n (omega (arith, h.size, h.modulus.nonempty)) in
      leave-Holds f.p f.r2 f.n0inv h.modulus x v (one_limbs f.n) s (n ∙ h.size) l e

  pub from_int-Stands :
      (a : List ℕ)
      → length a ≡ length f.p
      → IsLimbs a
      → value a ≤ value f.p
      → Stands (value a) (from_int f a)
  unfolding from_int
  from_int-Stands a n l small = enter-Represents f.p f.r2 f.n0inv h.modulus a n l small

  -- `to_int` undoes `from_int` on every array of limbs with a value below the modulus.
  pub to_int-from_int :
      (a : List ℕ)
      → length a ≡ length f.p
      → IsLimbs a
      → value a < value f.p
      → to_int f (from_int f a) ≡ a
  to_int-from_int a n l small =
      let out = to_int-Holds (value a) (from_int f a) (from_int-Stands a n l (omega arith)) in
      value-injective (to_int f (from_int f a)) a (out.size ∙ sym n) out.limbs l
        (out.number ∙ mod-eq_of_lt small)

  -- `mul`, `sqr`, `add` and `sub` on Montgomery forms give the Montgomery forms of the product,
  -- the square, the sum and a difference of what the arguments stand for.
  pub arithmetic-Stands :
      (x y z : ℕ) (a b : List ℕ)
      → Stands x a
      → Stands y b
      → (z + y) % value f.p ≡ x % value f.p
      → Stands (x * y) (mul f a b)
        × Stands (x * x) (sqr f a)
        × Stands (x + y) (add f a b)
        × Stands z (sub f a b)
  unfolding mul sqr add sub
  arithmetic-Stands x y z a b s t e = (
    mul-Represents f.p f.r2 f.n0inv h.modulus x y a b s t,
    mul-Represents f.p f.r2 f.n0inv h.modulus x x a a s s,
    add-Represents f.p f.r2 f.n0inv h.modulus x y a b s t,
    sub-Represents f.p f.r2 f.n0inv h.modulus x y z a b s t e,
  )

abbrev pub p256-IsField : IsField p256.field
p256-IsField = record { modulus = p256_field-IsModulus; size = refl }

abbrev pub p384-IsField : IsField p384.field
p384-IsField = record { modulus = p384_field-IsModulus; size = refl }

pub invert_p256-Stands :
    (x : ℕ) (v : List ℕ)
    → Stands p256.field p256-IsField x v
    → Stands p256.field p256-IsField (x ^ (value p256_p - 2)) (invert p256.field v)
unfolding invert
invert_p256-Stands x v s =
    (invert_8-Pow p256.field p256_field-IsModulus x v
      (IsPow-one _ _ _ p256_field-IsModulus x s)).power

-- On P-256 `invert` of the Montgomery form of `x` gives the Montgomery form of `x ^ (p - 2)`:
-- `to_int` of it is that power modulo `p`, in 8 limbs.
pub invert-p256 :
    (x : ℕ) (v : List ℕ)
    → Stands p256.field p256-IsField x v
    → Holds 8 (x ^ (value p256_p - 2) % value p256_p) (to_int p256.field (invert p256.field v))
invert-p256 x v s =
    to_int-Holds p256.field p256-IsField (x ^ (value p256_p - 2)) (invert p256.field v)
      (invert_p256-Stands x v s)

pub invert_p384-Stands :
    (x : ℕ) (v : List ℕ)
    → Stands p384.field p384-IsField x v
    → Stands p384.field p384-IsField (x ^ (value p384_p - 2)) (invert p384.field v)
unfolding invert
invert_p384-Stands x v s =
    (invert_12-Pow p384.field p384_field-IsModulus x v
      (IsPow-one _ _ _ p384_field-IsModulus x s)).power

-- On P-384 `invert` of the Montgomery form of `x` gives the Montgomery form of `x ^ (p - 2)`:
-- `to_int` of it is that power modulo `p`, in 12 limbs.
pub invert-p384 :
    (x : ℕ) (v : List ℕ)
    → Stands p384.field p384-IsField x v
    → Holds 12 (x ^ (value p384_p - 2) % value p384_p) (to_int p384.field (invert p384.field v))
invert-p384 x v s =
    to_int-Holds p384.field p384-IsField (x ^ (value p384_p - 2)) (invert p384.field v)
      (invert_p384-Stands x v s)
