-- ===== src/Examples/Fields.antt =====
-- The theorems on limb arrays and field elements, on P-256 and P-384.
use mcu_crypto_asm.Base.{ℕ, ◌+◌, ◌-◌, ◌*◌, ◌%◌, ◌^◌, ◌≡◌, refl, List, [], ◌∷◌, length, arith}
use mcu_crypto_asm.Bignum.{mul_mont}
use mcu_crypto_asm.Bignum.Value.{value, radix, IsLimbs}
use mcu_crypto_asm.Bignum.Reduce.{Holds}
use mcu_crypto_asm.Bignum.AddSub.{IsOperands}
use mcu_crypto_asm.Bignum.MulMont.{mul_mont-Product}
use mcu_crypto_asm.Curve.Constants.{p256, p384, p256_p}
use mcu_crypto_asm.Fe.{from_int, to_int, mul, sqr, add, sub, invert}
use mcu_crypto_asm.Fe.Laws.{
  Stands, from_int-Stands, arithmetic-Stands, p256-IsField, p384-IsField, invert-p256,
}

abbrev five : List ℕ
five = 5 ∷ 0 ∷ 0 ∷ 0 ∷ 0 ∷ 0 ∷ 0 ∷ 0 ∷ []

abbrev big : List ℕ
big = 0xfffffffe ∷ 0xffffffff ∷ 0xffffffff ∷ 0 ∷ 0 ∷ 0 ∷ 1 ∷ 0xffffffff ∷ []

abbrev nine : List ℕ
nine = 9 ∷ 0 ∷ 0 ∷ 0 ∷ 0 ∷ 0 ∷ 0 ∷ 0 ∷ 0 ∷ 0 ∷ 0 ∷ 0 ∷ []

five-IsLimbs : IsLimbs five
five-IsLimbs = ground arith

big-IsLimbs : IsLimbs big
big-IsLimbs = ground arith

nine-IsLimbs : IsLimbs nine
nine-IsLimbs = ground arith

operands : IsOperands five big p256_p
operands = record {
  a_size = refl;
  b_size = refl;
  a_limbs = five-IsLimbs;
  b_limbs = big-IsLimbs;
  p_limbs = p256-IsField.modulus.limbs;
  a_below = omega arith;
  b_below = omega arith;
}

five-Stands : Stands p256.field p256-IsField (value five) (from_int p256.field five)
five-Stands = from_int-Stands p256.field p256-IsField five refl five-IsLimbs (omega arith)

nine-Stands : Stands p384.field p384-IsField (value nine) (from_int p384.field nine)
nine-Stands = from_int-Stands p384.field p384-IsField nine refl nine-IsLimbs (omega arith)

invert-p256_example :
    Holds 8
      (value five ^ (value p256_p - 2) % value p256_p)
      (to_int p256.field (invert p256.field (from_int p256.field five)))
invert-p256_example = invert-p256 (value five) (from_int p256.field five) five-Stands

arithmetic-Stands_example :
    Stands p384.field p384-IsField
      (value nine * value nine)
      (mul p384.field (from_int p384.field nine) (from_int p384.field nine))
    × Stands p384.field p384-IsField
        (value nine * value nine)
        (sqr p384.field (from_int p384.field nine))
    × Stands p384.field p384-IsField
        (value nine + value nine)
        (add p384.field (from_int p384.field nine) (from_int p384.field nine))
    × Stands p384.field p384-IsField 0
        (sub p384.field (from_int p384.field nine) (from_int p384.field nine))
arithmetic-Stands_example =
    arithmetic-Stands p384.field p384-IsField (value nine) (value nine) 0 (from_int p384.field nine)
      (from_int p384.field nine) nine-Stands nine-Stands refl

mul_mont-Product_example :
    (v q : ℕ) × (radix (length five) * v ≡ value big * value five + q * value p256_p)
    × Holds 8 (v % value p256_p) (mul_mont big five p256_p 1)
mul_mont-Product_example =
    mul_mont-Product big p256_p 1 refl (omega arith) big-IsLimbs p256-IsField.modulus.limbs
      p256-IsField.modulus.inverse (omega arith) five five-IsLimbs (omega arith)
