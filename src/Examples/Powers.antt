-- ===== src/Examples/Powers.antt =====
-- The theorems on src/rsa.rs.
use mcu_crypto_asm.Base.{ℕ, refl, List, [], ◌∷◌, arith}
use mcu_crypto_asm.Bignum.Value.{IsLimbs}
use mcu_crypto_asm.Rsa.{modexp_public}
use mcu_crypto_asm.Rsa.Public.{IsAnswer, modexp_public-IsAnswer}

abbrev modulus : List ℕ
modulus = 0xDEADBEEF ∷ 0xCAFEBABE ∷ 0 ∷ 0 ∷ 0 ∷ 0 ∷ 0 ∷ 0x80000000 ∷ []

abbrev base : List ℕ
base = 12345 ∷ 0 ∷ 0 ∷ 0 ∷ 0 ∷ 0 ∷ 0 ∷ 0 ∷ []

modulus-IsLimbs : IsLimbs modulus
modulus-IsLimbs = (
  omega arith,
  (
    omega arith,
    (omega arith, (omega arith, (omega arith, (omega arith, (omega arith, (omega arith, tt)))))),
  ),
)

base-IsLimbs : IsLimbs base
base-IsLimbs = (
  omega arith,
  (
    omega arith,
    (omega arith, (omega arith, (omega arith, (omega arith, (omega arith, (omega arith, tt)))))),
  ),
)

modexp_public-IsAnswer_example :
    IsAnswer base (1 ∷ 0 ∷ 1 ∷ []) modulus (modexp_public base (1 ∷ 0 ∷ 1 ∷ []) modulus)
modexp_public-IsAnswer_example =
    modexp_public-IsAnswer base (1 ∷ 0 ∷ 1 ∷ []) modulus refl base-IsLimbs modulus-IsLimbs
      (λ e. omega (arith, e)) (omega arith, (omega arith, (omega arith, tt)))
