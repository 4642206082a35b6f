-- ===== src/Examples/Scalars.antt =====
-- The theorems on scalars and byte strings, on P-256 and P-384.
use mcu_crypto_asm.Base.{◌-◌, ◌*◌, ◌+◌, ◌%◌, ◌^◌}
use mcu_crypto_asm.Curve.Constants.{p384}
use mcu_crypto_asm.Curve.Moduli.{p384_order-IsModulus}
use mcu_crypto_asm.Scalar.{invert, mul, add, sub, neg}
use mcu_crypto_asm.Scalar.Laws.{from_int-Stands, scalar_arithmetic-Stands}
use mcu_crypto_asm.Scalar.Inverse.{IsInverse, invert-p256_order}
use mcu_crypto_asm.Base.{ℕ, ◌≡◌, refl, List, [], ◌∷◌, replicate, arith}
use mcu_crypto_asm.Bignum.Value.{value}
use mcu_crypto_asm.Bytes.{IsBytes}
use mcu_crypto_asm.Curve.Constants.{p256}
use mcu_crypto_asm.Curve.Moduli.{p256_order-IsModulus}
use mcu_crypto_asm.Scalar.{ok, from_int, from_be_bytes, to_be_bytes}
use mcu_crypto_asm.Scalar.Laws.{IsWide, Stands, from_be_bytes-to_be_bytes}
use mcu_crypto_asm.Scalar.Decode.{IsDecoded, from_be_bytes-IsDecoded}

abbrev seven : List ℕ
seven = 7 ∷ 0 ∷ 0 ∷ 0 ∷ 0 ∷ 0 ∷ 0 ∷ 1 ∷ []

seven-IsWide : IsWide p256 seven
seven-IsWide = record { size = refl; limbs = ground arith }

abbrev ones : List ℕ
ones = replicate 32 255

ones-IsBytes : IsBytes ones
ones-IsBytes = ground arith

long-IsBytes : IsBytes (replicate 33 255)
long-IsBytes = ground arith

short-IsBytes : IsBytes (replicate 20 255)
short-IsBytes = ground arith

from_be_bytes-to_be_bytes_example :
    (bytes : List ℕ) × (to_be_bytes p256 (from_int p256 seven) 32 ≡ ok bytes)
    × (from_be_bytes p256 bytes ≡ ok (from_int p256 seven))
from_be_bytes-to_be_bytes_example =
    from_be_bytes-to_be_bytes p256 p256_order-IsModulus seven seven-IsWide (omega arith)

from_be_bytes-IsDecoded_example : IsDecoded p256 p256_order-IsModulus ones (from_be_bytes p256 ones)
from_be_bytes-IsDecoded_example =
    from_be_bytes-IsDecoded p256 p256_order-IsModulus ones ones-IsBytes

seven-Stands : Stands p256 p256_order-IsModulus (value seven) (from_int p256 seven)
seven-Stands = from_int-Stands p256 p256_order-IsModulus seven seven-IsWide (omega arith)

invert-p256_order_example :
    IsInverse p256
      (from_int p256 seven)
      (value seven ^ (value p256.order - 2) % value p256.order)
      (invert p256 (from_int p256 seven))
invert-p256_order_example = invert-p256_order (value seven) (from_int p256 seven) seven-Stands

abbrev six : List ℕ
six = 6 ∷ 0 ∷ 0 ∷ 0 ∷ 0 ∷ 0 ∷ 0 ∷ 0 ∷ 0 ∷ 0 ∷ 0 ∷ 2 ∷ []

six-IsWide : IsWide p384 six
six-IsWide = record { size = refl; limbs = ground arith }

six-Stands : Stands p384 p384_order-IsModulus (value six) (from_int p384 six)
six-Stands = from_int-Stands p384 p384_order-IsModulus six six-IsWide (omega arith)

scalar_arithmetic-Stands_example :
    Stands p256 p256_order-IsModulus
      (value seven * value seven)
      (mul p256 (from_int p256 seven) (from_int p256 seven))
    × Stands p256 p256_order-IsModulus
        (value seven + value seven)
        (add p256 (from_int p256 seven) (from_int p256 seven))
    × Stands p256 p256_order-IsModulus 0 (sub p256 (from_int p256 seven) (from_int p256 seven))
    × Stands p256 p256_order-IsModulus
        (value p256.order - value seven)
        (neg p256 (from_int p256 seven))
scalar_arithmetic-Stands_example =
    scalar_arithmetic-Stands p256 p256_order-IsModulus (value seven) (value seven) 0
      (value p256.order - value seven) (from_int p256 seven) (from_int p256 seven) seven-Stands
      seven-Stands refl refl
