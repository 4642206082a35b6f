-- ===== src/Bignum/Value.antt =====
-- The number that an array of limbs stands for.
use mcu_crypto_asm.Base.{ℕ, zero, suc, ◌+◌, ◌*◌, ◌^◌, ◌<◌, ◌≡◌, refl, List, [], ◌∷◌, ◌++◌}
use mcu_crypto_asm.Base.{length, All, arith}

abbrev pub value : List ℕ → ℕ
value [] = 0
value (x ∷ a) = x + 2 ^ 32 * value a

-- R = 2^(32 * n)
abbrev pub radix : ℕ → ℕ
radix zero = 1
radix (suc n) = 2 ^ 32 * radix n

abbrev pub IsLimbs : List ℕ → Type 0
IsLimbs = All (λ x. x < 2 ^ 32)

pub value-lt-radix : (a : List ℕ) → IsLimbs a → value a < radix (length a)
value-lt-radix [] h = omega arith
value-lt-radix (x ∷ a) (hx, h) = omega (arith, value-lt-radix a h)

pub value-append : (a b : List ℕ) → value (a ++ b) ≡ value a + radix (length a) * value b
value-append [] b = omega arith
value-append (x ∷ a) b = omega (arith, value-append a b)

pub IsLimbs-append : (a b : List ℕ) → IsLimbs a → IsLimbs b → IsLimbs (a ++ b)
IsLimbs-append [] b h k = k
IsLimbs-append (x ∷ a) b (hx, h) k = (hx, IsLimbs-append a b h k)

-- Arrays of one length with one value are one array.
pub value-injective :
    (a b : List ℕ) → length a ≡ length b → IsLimbs a → IsLimbs b → value a ≡ value b → a ≡ b
value-injective [] [] n h k e = refl
value-injective [] (y ∷ b) n h k e = absurd (omega arith)
value-injective (x ∷ a) [] n h k e = absurd (omega arith)
value-injective (x ∷ a) (y ∷ b) n (hx, h) (hy, k) e =
    ground (arith, value-injective a b (omega arith) h k (omega arith))
