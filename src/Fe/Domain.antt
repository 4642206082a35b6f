-- ===== src/Fe/Domain.antt =====
-- A field element `v` with `Represents x v` stands for `x` modulo `p`.
use mcu_crypto_asm.Base.{ℕ, zero, suc, ◌<◌, ◌≡◌, refl, ap}
use mcu_crypto_asm.Base.{length, replicate, length-replicate, arith}
use mcu_crypto_asm.Bignum.Value.{value, IsLimbs}
use mcu_crypto_asm.Fe.{one_limbs}

-- A zero array, and the array of the number one.
pub replicate_zero : (n : ℕ) → IsLimbs (replicate n 0) × (value (replicate n 0) ≡ 0)
replicate_zero zero = (tt, refl)
replicate_zero (suc n) = let (l, v) = replicate_zero n in ((omega arith, l), omega (arith, v))

pub one_limbs_lem :
    (n : ℕ) → 0 < n → (length (one_limbs n) ≡ n) × IsLimbs (one_limbs n) × (value (one_limbs n) ≡ 1)
unfolding one_limbs
one_limbs_lem zero h = absurd (omega arith)
one_limbs_lem (suc n) h =
    let (l, v) = replicate_zero n in
    (ap suc (length-replicate n 0), (omega arith, l), omega (arith, v))
