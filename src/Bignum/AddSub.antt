-- ===== src/Bignum/AddSub.antt =====
-- `add_mod`, `sub_mod` and their fixed-size variants, of src/backend/portable.rs.
use mcu_crypto_asm.Base.{ℕ, zero, suc, ◌+◌, ◌-◌, ◌*◌, ◌%◌, ◌<◌, ◌≤◌, ◌≡◌, ap, sym, ◌∙◌}
use mcu_crypto_asm.Base.{List, length, arith, u32, wrapping_neg32}
use mcu_crypto_asm.Bignum.{overflowing_sub_loop, overflowing_add_loop, add_loop, mask_limbs}
use mcu_crypto_asm.Bignum.{add_mod, sub_mod, add_mod_n, sub_mod_n, cond_sub_p, cond_sub_p_n}
use mcu_crypto_asm.Bignum.Value.{value, radix, IsLimbs, value-lt-radix}
use mcu_crypto_asm.Bignum.Chains.{
  IsCarry, overflowing_sub_loop_lem, sub_loop-eq-overflowing_sub_loop,
}
use mcu_crypto_asm.Bignum.Chains.{minus, add_loop_lem, overflowing_add_loop-eq-add_loop}
use mcu_crypto_asm.Bignum.Reduce.{Holds, cond_sub_p-Holds, cond_sub_p_n-eq-cond_sub_p}
use mcu_crypto_asm.Bignum.Reduce.{mask_limbs-ones, mask_limbs-zero, mask_limbs-IsLimbs, mod_once}
use native.Mathlib.Nat.{mod-eq_of_lt}

-- The modulus and the operands of the functions of this file.
pub record IsOperands (a b p : List ℕ) : Type 0 where
  pub a_size : length a ≡ length p
  pub b_size : length b ≡ length p
  pub a_limbs : IsLimbs a
  pub b_limbs : IsLimbs b
  pub p_limbs : IsLimbs p
  pub a_below : value a < value p
  pub b_below : value b < value p

module _ (a b p : List ℕ) (h : IsOperands a b p) where
  added :
      IsCarry (length a) (add_loop a b 0)
      × (value (add_loop a b 0).0 + radix (length a) * (add_loop a b 0).1 ≡ value a + value b + 0)
  added = add_loop_lem a b 0 (h.a_size ∙ sym h.b_size) h.a_limbs h.b_limbs (omega arith)

  -- `add_mod` of two operands below the modulus writes the reduced sum, in as many limbs as the
  -- modulus.
  pub add_mod-Holds : Holds (length p) ((value a + value b) % value p) (add_mod a b p)
  unfolding add_mod
  add_mod-Holds =
      let same = overflowing_add_loop-eq-add_loop a b 0 h.a_limbs h.b_limbs (omega arith) in
      let n = added.0.size ∙ h.a_size in
      rw same (
        rw n at (
          cond_sub_p-Holds (add_loop a b 0).0 (add_loop a b 0).1 p (value a + value b) n
            added.0.limbs h.p_limbs added.0.bit
            (omega (arith, added.1, ap (λ k. radix k * (add_loop a b 0).1) added.0.size))
            (omega (arith, h.a_below, h.b_below))))

  -- On two operands below the modulus `add_mod_n`, with carries in 64 bits, equals `add_mod`.
  pub add_mod_n-eq-add_mod : add_mod_n a b p ≡ add_mod a b p
  unfolding add_mod add_mod_n
  add_mod_n-eq-add_mod =
      let same = overflowing_add_loop-eq-add_loop a b 0 h.a_limbs h.b_limbs (omega arith) in
      let carry : u32 (add_loop a b 0).1 ≡ (add_loop a b 0).1 = omega (arith, added.0.bit) in
      ap (λ c. cond_sub_p_n (add_loop a b 0).0 c p) carry
      ∙ cond_sub_p_n-eq-cond_sub_p (add_loop a b 0).0 (add_loop a b 0).1 p (added.0.size ∙ h.a_size)
          added.0.limbs h.p_limbs added.0.bit
      ∙ ap (λ r. cond_sub_p r.0 r.1 p) (sym same)

-- The correction by `p` after a borrow.
corrected_Holds :
    (bo va vb : ℕ) (t p : List ℕ)
    → bo ≤ 1
    → length t ≡ length p
    → IsLimbs t
    → IsLimbs p
    → value t + vb ≡ va + radix (length p) * bo
    → va < value p
    → vb < value p
    → Holds
        (length p)
        ((va + value p - vb) % value p)
        (add_loop t (mask_limbs (wrapping_neg32 bo) p) 0).0
corrected_Holds zero va vb t p bit n ht hp e ha hb =
    let (nz, lz, vz) = mask_limbs-zero p in
    let sum = add_loop_lem t (mask_limbs 0 p) 0 (n ∙ sym nz) ht lz (omega arith) in
    record {
      size = sum.0.size ∙ n;
      limbs = sum.0.limbs;
      number =
          no_carry (add_loop t (mask_limbs 0 p) 0).1 (value t + 0) (radix (length t))
            (omega (arith, sum.1, vz)) (omega (arith, value-lt-radix t ht))
          ∙ omega (
            arith,
            mod_once (va + value p - vb) (value p) (omega arith) (omega arith),
            mod-eq_of_lt {n = va - vb} {m = value p} (omega arith),
          );
    }
  where
    no_carry : {x : ℕ} (c v r : ℕ) → x + r * c ≡ v → v < r → x ≡ v
    no_carry zero v r e k = omega arith
    no_carry (suc c) v r e k = absurd (grind arith)
corrected_Holds (suc zero) va vb t p bit n ht hp e ha hb =
    let sum = add_loop_lem t p 0 n ht hp (omega arith) in
    rw (mask_limbs-ones p hp) (record {
      size = sum.0.size ∙ n;
      limbs = sum.0.limbs;
      number =
          one_carry (add_loop t p 0).1 (radix (length p)) sum.0.bit
            (omega (
              arith,
              sum.1,
              value-lt-radix p hp,
              ap radix n,
              ap (λ k. radix k * (add_loop t p 0).1) n,
            ))
            (omega (arith, value-lt-radix _ sum.0.limbs, ap radix sum.0.size, ap radix n))
          ∙ sym (
              mod-eq_of_lt {n = va + value p - vb} {m = value p}
                (omega (arith, value-lt-radix t ht, ap radix n)));
    })
  where
    one_carry :
        {x : ℕ} (c r : ℕ)
        → c ≤ 1
        → x + r * c + vb ≡ va + r + value p
        → x < r
        → x ≡ va + value p - vb
    one_carry zero r k e l = absurd (omega arith)
    one_carry (suc zero) r k e l = omega arith
    one_carry (suc (suc c)) r k e l = absurd (omega arith)
corrected_Holds (suc (suc bo)) va vb t p bit n ht hp e ha hb = absurd (omega arith)

module _ (a b p : List ℕ) (h : IsOperands a b p) where
  subtracted :
      IsCarry (length a) (overflowing_sub_loop a b 0)
      × (value (overflowing_sub_loop a b 0).0 + value b + 0
          ≡ value a + radix (length a) * (overflowing_sub_loop a b 0).1)
  subtracted =
      overflowing_sub_loop_lem a b 0 (h.a_size ∙ sym h.b_size) h.a_limbs h.b_limbs (omega arith)

  masked-eq :
      overflowing_add_loop
        (overflowing_sub_loop a b 0).0
        (mask_limbs (wrapping_neg32 (overflowing_sub_loop a b 0).1) p)
        0
      ≡ add_loop
          (overflowing_sub_loop a b 0).0
          (mask_limbs (wrapping_neg32 (overflowing_sub_loop a b 0).1) p)
          0
  masked-eq =
      overflowing_add_loop-eq-add_loop _ _ 0 subtracted.0.limbs
        (mask_limbs-IsLimbs (overflowing_sub_loop a b 0).1 p subtracted.0.bit h.p_limbs)
        (omega arith)

  -- `sub_mod` of two operands below the modulus writes the reduced difference, in as many limbs
  -- as the modulus.
  pub sub_mod-Holds : Holds (length p) ((value a + value p - value b) % value p) (sub_mod a b p)
  unfolding sub_mod
  sub_mod-Holds =
      rw (masked-eq, sub_mod)
        (corrected_Holds (overflowing_sub_loop a b 0).1 (value a) (value b)
          (overflowing_sub_loop a b 0).0 p subtracted.0.bit (subtracted.0.size ∙ h.a_size)
          subtracted.0.limbs h.p_limbs
          (omega (arith, subtracted.1, ap (λ k. radix k * (overflowing_sub_loop a b 0).1) h.a_size))
          h.a_below h.b_below)

  -- On two operands below the modulus `sub_mod_n`, with signed borrows in 64 bits, equals
  -- `sub_mod`.
  pub sub_mod_n-eq-sub_mod : sub_mod_n a b p ≡ sub_mod a b p
  unfolding sub_mod sub_mod_n
  sub_mod_n-eq-sub_mod =
      let same = sub_loop-eq-overflowing_sub_loop a b 0 h.a_limbs h.b_limbs (omega arith) in
      let mask : u32 (minus (overflowing_sub_loop a b 0).1)
          ≡ wrapping_neg32 (overflowing_sub_loop a b 0).1 =
        omega (arith, subtracted.0.bit) in
      ap (λ r. (add_loop r.0 (mask_limbs (u32 r.1) p) 0).0) same
      ∙ ap (λ m. (add_loop (overflowing_sub_loop a b 0).0 (mask_limbs m p) 0).0) mask
      ∙ ap (λ r. r.0) (sym masked-eq)
