-- ===== src/Rsa/Modexp.antt =====
-- The exponentiation of src/rsa.rs, against the power modulo the modulus.
use mcu_crypto_asm.Base.{
  ℕ, zero, suc, ◌+◌, ◌-◌, ◌*◌, ◌%◌, ◌^◌, ◌<◌, ◌≤◌, ◌≡◌, inl, inr, refl, ap, ap₂, sym, ◌∙◌, List, [],
  ◌∷◌, length, arith, Cong, Cong-mul, Bool-cases, true, false, Bool, if◌then◌else◌,
}
use mathlib.Core.Path.{subst}
use native.Mathlib.Nat.{mod-mod, mod-lt}
use mcu_crypto_asm.Bytes.{IsBytes}
use mcu_crypto_asm.Bignum.{low_limb, mul_mont}
use mcu_crypto_asm.Bignum.Value.{value, radix, IsLimbs}
use mcu_crypto_asm.Bignum.Reduce.{Holds}
use mcu_crypto_asm.Bignum.Domain.{IsModulus, Represents-below, mul_value}
use mcu_crypto_asm.Bignum.Power.{IsPow, IsPow-mul, IsPow-one, IsPow-exp}
use mcu_crypto_asm.Rsa.{inv32, mont_mul, double_loop, one_limbs, bit_at, power_loop, power}
use mcu_crypto_asm.Rsa.Inverse.{inv32-inverse}
use mcu_crypto_asm.Rsa.Select.{mont_mul-eq-mul_mont}
use mcu_crypto_asm.Rsa.Radix.{r2-Holds, radix-unit, one_limbs-value}
use mcu_crypto_asm.Rsa.Exponent.{be_value, prefix, digit, prefix-be_value}

-- An odd modulus.
pub record IsOdd (m : List ℕ) : Type 0 where
  pub limbs : IsLimbs m
  pub odd : low_limb m % 2 ≡ 1
  pub big : 1 < value m

abbrev r2_of : List ℕ → List ℕ
r2_of m = double_loop (64 * length m) m (one_limbs (length m))

abbrev mu_of : List ℕ → ℕ
mu_of m = inv32 (low_limb m)

pub odd_value : (m : List ℕ) → IsOdd m → (value m % 2 ≡ 1) × (low_limb m < 2 ^ 32) × (0 < length m)
odd_value [] h = absurd (omega (arith, h.big))
odd_value (x ∷ m) h = (omega (arith, h.odd), h.limbs.0, omega arith)

IsOdd-IsModulus : (m : List ℕ) → IsOdd m → IsModulus m (r2_of m) (mu_of m)
IsOdd-IsModulus m h =
    let (odd, word, pos) = odd_value m h in
    let (s, unit) = radix-unit (value m) (length m) odd in
    let r2 = r2-Holds m h.limbs pos h.big in
    record {
      limbs = h.limbs;
      nonempty = pos;
      positive = h.big;
      inverse = inv32-inverse (low_limb m) word h.odd;
      r_inv = s;
      unit = unit;
      r2_size = r2.size;
      r2_limbs = r2.limbs;
      r2_square =
          ap (λ t. t % value m) r2.number ∙ mod-mod (radix (length m) * radix (length m)) (value m);
    }

module _ (m : List ℕ) (h : IsOdd m) where
  abbrev modulus : IsModulus m (r2_of m) (mu_of m)
  modulus = IsOdd-IsModulus m h

  exchanged :
      (a b : List ℕ)
      → IsLimbs a
      → length b ≡ length m
      → IsLimbs b
      → value b ≤ value m
      → mont_mul a b m (mu_of m) ≡ mul_mont b a m (mu_of m)
  exchanged a b ha n hb small =
      mont_mul-eq-mul_mont a b m (mu_of m) n modulus.nonempty ha hb h.limbs modulus.inverse small
        (omega (arith, h.big))

  -- What Montgomery multiplication holds, by a number that `R` times it is congruent to the product.
  mont_mul-Holds :
      (a b : List ℕ) (z : ℕ)
      → length a ≡ length m
      → IsLimbs a
      → length b ≡ length m
      → IsLimbs b
      → value b ≤ value m
      → Cong (value m) (value b * value a) (radix (length m) * z)
      → Holds (length m) (z % value m) (mont_mul a b m (mu_of m))
  mont_mul-Holds a b z na ha nb hb small e =
      rw (exchanged a b ha nb hb small)
        (mul_value m (r2_of m) (mu_of m) modulus b a z nb na hb ha small e)

  module _ (x : ℕ) where
    abbrev Pow : ℕ → List ℕ → Type 0
    Pow = IsPow m (r2_of m) (mu_of m) modulus x

    Pow-mul : (e f : ℕ) (a b : List ℕ) → Pow e a → Pow f b → Pow (f + e) (mont_mul a b m (mu_of m))
    Pow-mul e f a b ha hb =
        subst (Pow (f + e))
          (sym (
            exchanged a b ha.power.limbs hb.power.size hb.power.limbs
              (omega (arith, Represents-below m (r2_of m) (mu_of m) modulus (x ^ f) hb.power))))
          (IsPow-mul m (r2_of m) (mu_of m) modulus x f e hb ha)

    -- The loop reads the bits of the exponent.
    power_loop-Pow :
        (n : ℕ) (e : List ℕ) (pos : ℕ) (base_mont acc : List ℕ)
        → Pow 1 base_mont
        → Pow (prefix e pos) acc
        → Pow (prefix e (pos + n)) (power_loop n e pos base_mont m (mu_of m) acc)
    unfolding power_loop prefix digit
    power_loop-Pow zero e pos base_mont acc hb ha =
        let same : pos + 0 ≡ pos = omega arith in subst (λ k. Pow (prefix e k) acc) (sym same) ha
    power_loop-Pow (suc n) e pos base_mont acc hb ha =
        let square = mont_mul acc acc m (mu_of m) in
        let squared = Pow-mul (prefix e pos) (prefix e pos) acc acc ha ha in
        let next = if bit_at e pos then mont_mul square base_mont m (mu_of m) else square in
        let one_more : pos + 1 + n ≡ pos + suc n = omega arith in
        subst (λ k. Pow (prefix e k) (power_loop n e (pos + 1) base_mont m (mu_of m) next)) one_more
          (power_loop-Pow n e (pos + 1) base_mont next hb (step squared))
      where
        next_prefix :
            (b : Bool)
            → bit_at e pos ≡ b
            → digit b + (prefix e pos + prefix e pos) ≡ prefix e (pos + 1)
        next_prefix b same =
            let one_more : pos + 1 ≡ suc pos = omega arith in
            omega (arith, ap digit same) ∙ sym (ap (prefix e) one_more)

        step :
            Pow (prefix e pos + prefix e pos) (mont_mul acc acc m (mu_of m))
            → (let square = mont_mul acc acc m (mu_of m) in
                Pow
                  (prefix e (pos + 1))
                  (if bit_at e pos then mont_mul square base_mont m (mu_of m) else square))
        step s = elim (Bool-cases (bit_at e pos)) [
          | inl one ↦ rw one (
              IsPow-exp m (r2_of m) (mu_of m) modulus x (next_prefix true one) (
                Pow-mul (prefix e pos + prefix e pos) 1 (mont_mul acc acc m (mu_of m)) base_mont s
                  hb))
          | inr none ↦
              rw none
                (IsPow-exp m (r2_of m) (mu_of m) modulus x (omega arith ∙ next_prefix false none) s)
        ]

  module _ (base : List ℕ) (size : length base ≡ length m) (hb : IsLimbs base)
      (small : value base < value m) where
    base_mont-Pow : Pow (value base) 1 (mont_mul base (r2_of m) m (mu_of m))
    base_mont-Pow =
        let r = radix (length m) in
        let below : value (r2_of m) < value m = omega (
          arith,
          (r2-Holds m h.limbs modulus.nonempty h.big).number,
          mod-lt (r * r) {m = value m} (omega (arith, h.big)),
        ) in
        IsPow-one m (r2_of m) (mu_of m) modulus (value base) (
          mont_mul-Holds base (r2_of m) (r * value base) size hb modulus.r2_size modulus.r2_limbs
            (omega (arith, below))
            (Cong-mul (value m) (value (r2_of m)) (r * r) (value base) (value base)
                modulus.r2_square refl
              ∙ ap (λ t. t % value m) (omega arith)))

    pub power-Holds :
        (e : List ℕ) (first : ℕ)
        → IsBytes e
        → first < length e * 8
        → prefix e (first + 1) ≡ 1
        → Holds (length m) (value base ^ be_value e % value m) (power base e first m)
    unfolding power
    power-Holds e first bytes within top =
        let base_mont = mont_mul base (r2_of m) m (mu_of m) in
        let n = length e * 8 - (first + 1) in
        let acc = power_loop n e (first + 1) base_mont m (mu_of m) base_mont in
        let all : prefix e (first + 1 + n) ≡ be_value e =
          ap (prefix e) (omega (arith, within)) ∙ prefix-be_value e bytes in
        let whole : Pow (value base) (be_value e) acc =
          IsPow-exp m (r2_of m) (mu_of m) modulus (value base) all (
            power_loop-Pow (value base) n e (first + 1) base_mont base_mont base_mont-Pow
              (IsPow-exp m (r2_of m) (mu_of m) modulus (value base) (sym top) base_mont-Pow)) in
        let (one_size, one_limbs_ok, one) = one_limbs-value (length m) modulus.nonempty in
        mont_mul-Holds acc (one_limbs (length m)) (value base ^ be_value e) whole.power.size
          whole.power.limbs one_size one_limbs_ok (omega (arith, one, h.big))
          (ap₂ (λ s t. (s * t) % value m) one whole.power.number
            ∙ ap (λ t. t % value m) (omega arith)
            ∙ mod-mod (radix (length m) * value base ^ be_value e) (value m))
