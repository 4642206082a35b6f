-- ===== src/Rsa/Radix.antt =====
-- The constants that src/rsa.rs computes of an odd modulus: `R * R` by doubling, and that `R` has an inverse.
use mcu_crypto_asm.Base.{
  ℕ, zero, suc, ◌+◌, ◌*◌, ◌/◌, ◌%◌, ◌^◌, ◌<◌, ◌≤◌, ◌≡◌, refl, ap, ap₂, sym, ◌∙◌, List, [], ◌∷◌,
  length, arith, replicate, length-replicate, Cong, Cong-mul, Cong-add_mul, u32,
}
use mcu_crypto_asm.Base.{bit_or, bit_or_sum}
use mcu_crypto_asm.Bignum.Value.{value, radix, IsLimbs}
use mcu_crypto_asm.Bignum.Reduce.{Holds}
use mcu_crypto_asm.Bignum.Power.{pow_add}
use mathlib.Core.Path.{subst}
use mcu_crypto_asm.Rsa.{shift_left, double_loop, one_limbs, sub_m_if_gte}
use mcu_crypto_asm.Rsa.Select.{sub_m_if_gte-Holds}
use native.Mathlib.Nat.{pow-suc, pow-zero, mod-lt, mod-mod, mod-eq_of_lt}

-- The array and the bit out are the double.
shift_left-double :
    (r : List ℕ) (c : ℕ)
    → IsLimbs r
    → c ≤ 1
    → (length (shift_left r c).0 ≡ length r)
      × IsLimbs (shift_left r c).0
      × ((shift_left r c).1 ≤ 1)
      × (value (shift_left r c).0 + radix (length r) * (shift_left r c).1 ≡ 2 * value r + c)
unfolding shift_left
shift_left-double [] c h bit = (refl, tt, bit, omega arith)
shift_left-double (x ∷ r) c (hx, h) bit =
    let (size, limbs, out, sum) = shift_left-double r (x / 2 ^ 31) h (omega arith) in
    let word : bit_or (u32 (x * 2)) c ≡ u32 (x * 2) + c =
      ap (λ t. bit_or t c) (omega arith)
      ∙ bit_or_sum 1 (x % 2 ^ 31) c (omega arith)
      ∙ omega arith in
    (ap suc size, (omega (arith, word), limbs), out, omega (arith, word, sum))

module _ (m : List ℕ) (hm : IsLimbs m) (big : 1 < value m) where
  double-Holds :
      (v : ℕ) (r : List ℕ)
      → Holds (length m) (v % value m) r
      → Holds (length m) ((2 * v) % value m) (sub_m_if_gte (shift_left r 0).0 m (shift_left r 0).1)
  double-Holds v r h =
      let (size, limbs, bit, sum) = shift_left-double r 0 h.limbs (omega arith) in
      let small : v % value m < value m = mod-lt v (omega (arith, big)) in
      let out =
        sub_m_if_gte-Holds (shift_left r 0).0 m (shift_left r 0).1 (2 * value r) (size ∙ h.size)
          limbs hm bit (omega (arith, sum, ap (λ k. radix k * (shift_left r 0).1) size))
          (omega (arith, h.number, small)) in
      record {
        size = out.size ∙ size ∙ h.size;
        limbs = out.limbs;
        number =
            out.number
            ∙ ap (λ t. (2 * t) % value m) h.number
            ∙ Cong-mul (value m) 2 2 (v % value m) v refl (mod-mod v (value m));
      }

  double_loop-Holds :
      (n v : ℕ) (r : List ℕ)
      → Holds (length m) (v % value m) r
      → Holds (length m) ((2 ^ n * v) % value m) (double_loop n m r)
  unfolding double_loop
  double_loop-Holds zero v r h =
      subst (λ k. Holds (length m) (k % value m) r) (omega (arith, pow-zero 2)) h
  double_loop-Holds (suc n) v r h =
      subst
        (λ k.
          Holds (length m) (k % value m)
            (double_loop n m (sub_m_if_gte (shift_left r 0).0 m (shift_left r 0).1)))
        (omega (arith, ap (λ (k : ℕ). k * v) (pow-suc 2 n)))
        (double_loop-Holds n (2 * v) (sub_m_if_gte (shift_left r 0).0 m (shift_left r 0).1)
          (double-Holds v r h))

-- The array of the number one.
pub one_limbs-value :
    (n : ℕ) → 0 < n → (length (one_limbs n) ≡ n) × IsLimbs (one_limbs n) × (value (one_limbs n) ≡ 1)
one_limbs-value zero h = absurd (omega arith)
one_limbs-value (suc n) h = (
  ap suc (length-replicate {A = ℕ} n 0),
  (omega arith, zeros_limbs n),
  omega (arith, zeros_value n),
)
  where
    zeros_limbs : (n : ℕ) → IsLimbs (replicate n 0)
    zeros_limbs zero = tt
    zeros_limbs (suc n) = (omega arith, zeros_limbs n)

    zeros_value : (n : ℕ) → value (replicate n 0) ≡ 0
    zeros_value zero = refl
    zeros_value (suc n) = omega (arith, zeros_value n)

radix-power : (n : ℕ) → radix n ≡ 2 ^ (32 * n)
radix-power zero = refl
radix-power (suc n) =
    let split : 32 * suc n ≡ 32 + 32 * n = omega arith in
    ap (λ k. 2 ^ 32 * k) (radix-power n) ∙ sym (pow_add 2 32 (32 * n)) ∙ ap (λ k. 2 ^ k) (sym split)

-- For a modulus of limbs above one, the doubling loop from the number one gives the square of the
-- radix modulo the modulus.
pub r2-Holds :
    (m : List ℕ)
    → IsLimbs m
    → 0 < length m
    → 1 < value m
    → Holds
        (length m)
        ((radix (length m) * radix (length m)) % value m)
        (double_loop (64 * length m) m (one_limbs (length m)))
r2-Holds m hm pos big =
    let (size, limbs, one) = one_limbs-value (length m) pos in
    let start : Holds (length m) (1 % value m) (one_limbs (length m)) = record {
      size = size;
      limbs = limbs;
      number = one ∙ sym (mod-eq_of_lt {n = 1} {m = value m} big);
    } in
    subst
      (λ k. Holds (length m) (k % value m) (double_loop (64 * length m) m (one_limbs (length m))))
      (square (length m))
      (double_loop-Holds m hm big (64 * length m) 1 (one_limbs (length m)) start)
  where
    square : (n : ℕ) → 2 ^ (64 * n) * 1 ≡ radix n * radix n
    square n =
        let split : 64 * n ≡ 32 * n + 32 * n = omega arith in
        omega (
          arith,
          ap (λ (k : ℕ). 2 ^ k) split,
          pow_add 2 (32 * n) (32 * n),
          ap (λ (k : ℕ). k * k) (radix-power n),
        )

-- Half of the modulus, rounded up, is the inverse of two.
pub radix-unit : (p n : ℕ) → p % 2 ≡ 1 → (s : ℕ) × Cong p (s * radix n) 1
radix-unit p n odd =
    let h = (p + 1) / 2 in
    let half : Cong p (h * 2) 1 = ap (λ t. t % p) (omega (arith, odd)) ∙ Cong-add_mul p 1 1 in
    (h ^ (32 * n), ap (λ k. (h ^ (32 * n) * k) % p) (radix-power n) ∙ powers h (32 * n) half)
  where
    powers : (h k : ℕ) → Cong p (h * 2) 1 → Cong p (h ^ k * 2 ^ k) 1
    powers h zero e =
        ap (λ t. t % p)
          (omega
            (arith, pow-zero h, pow-zero 2, ap₂ (λ (s t : ℕ). s * t) (pow-zero h) (pow-zero 2)))
    powers h (suc k) e =
        ap (λ t. t % p) (ap₂ (λ s t. s * t) (pow-suc h k) (pow-suc 2 k) ∙ omega arith)
        ∙ Cong-mul p (h ^ k * 2 ^ k) 1 (h * 2) 1 (powers h k e) e
