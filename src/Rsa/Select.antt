-- ===== src/Rsa/Select.antt =====
-- The final subtraction of src/rsa.rs, against that of src/backend/portable.rs, and `mont_mul`.
use mcu_crypto_asm.Base.{
  ℕ, zero, suc, ◌+◌, ◌*◌, ◌/◌, ◌%◌, ◌^◌, ◌<◌, ◌≤◌, ◌≡◌, refl, ap, ap₂, sym, ◌∙◌, List, [], ◌∷◌,
  length, arith, if◌then◌else◌, ltb,
}
use mcu_crypto_asm.Base.{
  bit_or-zero, bit_or_comm, bit_and-zero, and-ones32, bit_or, bit_and, ones32, u64, wrapping_sub32,
}
use mcu_crypto_asm.Bignum.{
  overflowing_sub_loop, cond_sub_p, select_limbs, mont_loop, mul_mont, zeros,
}
use mcu_crypto_asm.Bignum.Value.{value, radix, IsLimbs}
use mcu_crypto_asm.Bignum.Chains.{minus, overflowing_sub_loop_lem, sub_loop-eq-overflowing_sub_loop}
use mcu_crypto_asm.Bignum.Reduce.{Holds, cond_sub_p-Holds, select_limbs-ones, select_limbs-zero}
use mcu_crypto_asm.Bignum.Mont.{IsNegInverse}
use mcu_crypto_asm.Bignum.MulMont.{mont_loop-Bounded}
use mcu_crypto_asm.Rsa.{choose_limbs, sub_m_if_gte, mont_mul}

choose_limbs-ones : (d t : List ℕ) → length d ≡ length t → IsLimbs d → choose_limbs ones32 d t ≡ d
unfolding choose_limbs
choose_limbs-ones [] [] n h = refl
choose_limbs-ones [] (x ∷ t) n h = absurd (omega arith)
choose_limbs-ones (y ∷ d) [] n h = absurd (omega arith)
choose_limbs-ones (y ∷ d) (x ∷ t) n (hy, h) =
    ap₂ (λ z r. z ∷ r)
      (ap (bit_or (bit_and y ones32)) (bit_and-zero x)
        ∙ bit_or-zero (bit_and y ones32)
        ∙ and-ones32 y hy)
      (choose_limbs-ones d t (omega arith) h)

choose_limbs-zero : (d t : List ℕ) → length d ≡ length t → IsLimbs t → choose_limbs 0 d t ≡ t
unfolding choose_limbs
choose_limbs-zero [] [] n h = refl
choose_limbs-zero [] (x ∷ t) n h = absurd (omega arith)
choose_limbs-zero (y ∷ d) [] n h = absurd (omega arith)
choose_limbs-zero (y ∷ d) (x ∷ t) n (hx, h) =
    ap₂ (λ z r. z ∷ r)
      (ap₂ bit_or (bit_and-zero y) (and-ones32 x hx) ∙ bit_or_comm 0 x ∙ bit_or-zero x)
      (choose_limbs-zero d t (omega arith) h)

-- With a carry of 0 or 1 this is the selection of the field arithmetic.
pub sub_m_if_gte-eq-cond_sub_p :
    (t m : List ℕ) (hi : ℕ)
    → length t ≡ length m
    → IsLimbs t
    → IsLimbs m
    → hi ≤ 1
    → sub_m_if_gte t m hi ≡ cond_sub_p t hi m
unfolding sub_m_if_gte cond_sub_p
sub_m_if_gte-eq-cond_sub_p t m hi n ht hm bit =
    let same = sub_loop-eq-overflowing_sub_loop t m 0 ht hm (omega arith) in
    let sub = overflowing_sub_loop_lem t m 0 n ht hm (omega arith) in
    ap (λ r. choose_limbs (if ltb (u64 (r.1 + hi)) (2 ^ 63) then ones32 else 0) r.0 t) same
    ∙ choose hi (overflowing_sub_loop t m 0).1 (overflowing_sub_loop t m 0).0 bit sub.0.bit
        sub.0.size sub.0.limbs
  where
    choose :
        (hi b : ℕ) (d : List ℕ)
        → hi ≤ 1
        → b ≤ 1
        → length d ≡ length t
        → IsLimbs d
        → choose_limbs (if ltb (u64 (minus b + hi)) (2 ^ 63) then ones32 else 0) d t
          ≡ select_limbs (wrapping_sub32 (wrapping_sub32 hi b / 2 ^ 31) 1) t d
    choose zero zero d h k l w =
        choose_limbs-ones d t l w ∙ sym (select_limbs-ones t d (sym l) ht w)
    choose zero (suc zero) d h k l w =
        choose_limbs-zero d t l ht ∙ sym (select_limbs-zero t d (sym l))
    choose (suc zero) zero d h k l w =
        choose_limbs-ones d t l w ∙ sym (select_limbs-ones t d (sym l) ht w)
    choose (suc zero) (suc zero) d h k l w =
        choose_limbs-ones d t l w ∙ sym (select_limbs-ones t d (sym l) ht w)
    choose (suc (suc hi)) b d h k l w = absurd (omega arith)
    choose zero (suc (suc b)) d h k l w = absurd (omega arith)
    choose (suc zero) (suc (suc b)) d h k l w = absurd (omega arith)

pub sub_m_if_gte-Holds :
    (t m : List ℕ) (hi v : ℕ)
    → length t ≡ length m
    → IsLimbs t
    → IsLimbs m
    → hi ≤ 1
    → v ≡ value t + radix (length t) * hi
    → v < value m + value m
    → Holds (length t) (v % value m) (sub_m_if_gte t m hi)
sub_m_if_gte-Holds t m hi v n ht hm bit e small =
    rw (sub_m_if_gte-eq-cond_sub_p t m hi n ht hm bit)
      (cond_sub_p-Holds t hi m v n ht hm bit e small)

-- The product is that of the field arithmetic, with the arguments exchanged.
pub mont_mul-eq-mul_mont :
    (a b m : List ℕ) (mu : ℕ)
    → length b ≡ length m
    → 0 < length m
    → IsLimbs a
    → IsLimbs b
    → IsLimbs m
    → IsNegInverse m mu
    → value b ≤ value m
    → 0 < value m
    → mont_mul a b m mu ≡ mul_mont b a m mu
unfolding mont_mul mul_mont
mont_mul-eq-mul_mont a b m mu n pos ha hb hm inv small some =
    let (t_ok, bit) = mont_loop-Bounded b m mu n pos hb hm inv small a ha some in
    let t = mont_loop b m mu a (record { low = zeros b; top = 0 }) in
    sub_m_if_gte-eq-cond_sub_p t.low m t.top t_ok.size t_ok.limbs hm bit
