-- ===== src/Bignum/Reduce.antt =====
-- The conditional subtraction of src/backend/portable.rs, in its two branchless forms.
use mcu_crypto_asm.Base.{
  ℕ, zero, suc, ◌+◌, ◌-◌, ◌*◌, ◌/◌, ◌%◌, ◌^◌, ◌<◌, ◌≤◌, ◌≡◌, refl, ap, sym, ◌∙◌,
}
use mcu_crypto_asm.Base.{List, [], ◌∷◌, length, arith, bit_and, bit_xor, ap₂}
use mcu_crypto_asm.Base.{u32, ones32, and-ones32, bit_and-zero, bit_xor_comm, zero-bit_xor}
use mcu_crypto_asm.Base.{bit_xor_cancel_left, bit_xor-lt, wrapping_sub32, wrapping_neg32}
use mcu_crypto_asm.Bignum.{overflowing_sub_loop, sub_loop, mask_limbs, select_limbs}
use mcu_crypto_asm.Bignum.{cond_sub_p, cond_sub_p_n}
use mcu_crypto_asm.Bignum.Value.{value, radix, IsLimbs, value-lt-radix, value-injective}
use mcu_crypto_asm.Bignum.Chains.{overflowing_sub_loop_lem, sub_loop-eq-overflowing_sub_loop}
use mcu_crypto_asm.Bignum.Chains.{minus}
use native.Mathlib.Nat.{mod-eq_of_lt}

pub mask_limbs-ones : (p : List ℕ) → IsLimbs p → mask_limbs ones32 p ≡ p
unfolding mask_limbs
mask_limbs-ones [] h = refl
mask_limbs-ones (x ∷ p) (hx, h) = ap₂ ◌∷◌ (and-ones32 x hx) (mask_limbs-ones p h)

-- A cleared mask leaves an array of zeros, of the same length.
pub mask_limbs-zero :
    (p : List ℕ)
    → (length (mask_limbs 0 p) ≡ length p) × IsLimbs (mask_limbs 0 p) × (value (mask_limbs 0 p) ≡ 0)
unfolding mask_limbs
mask_limbs-zero [] = (refl, tt, refl)
mask_limbs-zero (x ∷ p) =
    let (n, l, v) = mask_limbs-zero p in
    (ap suc n, (omega (arith, bit_and-zero x), l), omega (arith, bit_and-zero x, v))

-- The mask made from a borrow keeps limbs limbs.
pub mask_limbs-IsLimbs :
    (bo : ℕ) (p : List ℕ) → bo ≤ 1 → IsLimbs p → IsLimbs (mask_limbs (wrapping_neg32 bo) p)
mask_limbs-IsLimbs zero p k h = (mask_limbs-zero p).1
mask_limbs-IsLimbs (suc zero) p k h = rw (mask_limbs-ones p h) h
mask_limbs-IsLimbs (suc (suc bo)) p k h = absurd (omega arith)

pub select_limbs-zero : (t d : List ℕ) → length t ≡ length d → select_limbs 0 t d ≡ t
unfolding select_limbs
select_limbs-zero [] d n = refl
select_limbs-zero (x ∷ t) [] n = absurd (omega arith)
select_limbs-zero (x ∷ t) (y ∷ d) n =
    ap₂ ◌∷◌ (ap (bit_xor x) (bit_and-zero (bit_xor x y)) ∙ bit_xor_comm x 0 ∙ zero-bit_xor x)
      (select_limbs-zero t d (omega arith))

pub select_limbs-ones :
    (t d : List ℕ) → length t ≡ length d → IsLimbs t → IsLimbs d → select_limbs ones32 t d ≡ d
unfolding select_limbs
select_limbs-ones [] [] n ht hd = refl
select_limbs-ones [] (y ∷ d) n ht hd = absurd (omega arith)
select_limbs-ones (x ∷ t) [] n ht hd = absurd (omega arith)
select_limbs-ones (x ∷ t) (y ∷ d) n (hx, ht) (hy, hd) =
    ap₂ ◌∷◌
      (ap (bit_xor x) (and-ones32 (bit_xor x y) (bit_xor-lt 32 x y hx hy))
        ∙ bit_xor_cancel_left x y)
      (select_limbs-ones t d (omega arith) ht hd)

-- An array of `n` limbs with the value `v`.
pub record Holds (n v : ℕ) (a : List ℕ) : Type 0 where
  pub size : length a ≡ n
  pub limbs : IsLimbs a
  pub number : value a ≡ v

pub mod_once : (t p : ℕ) → p ≤ t → t < p + p → t - p ≡ t % p
mod_once t p h k = grind arith

select_mask : ℕ → ℕ → ℕ
select_mask hi borrow = wrapping_sub32 (wrapping_sub32 hi borrow / 2 ^ 31) 1

-- Which of `t` and `diff` is selected, in the four cases of the two top bits.
select_Holds :
    (hi borrow p v : ℕ) (t diff : List ℕ)
    → hi ≤ 1
    → borrow ≤ 1
    → p < radix (length t)
    → length diff ≡ length t
    → IsLimbs t
    → IsLimbs diff
    → value diff + p ≡ value t + radix (length t) * borrow
    → v ≡ value t + radix (length t) * hi
    → v < p + p
    → Holds (length t) (v % p) (select_limbs (select_mask hi borrow) t diff)
unfolding select_mask
select_Holds zero zero p v t d h1 h2 fits n ht hd e f small =
    rw (select_limbs-ones t d (sym n) ht hd) (record {
      size = n;
      limbs = hd;
      number = omega (arith, mod_once v p (omega arith) (omega arith));
    })
select_Holds zero (suc zero) p v t d h1 h2 fits n ht hd e f small =
    rw (select_limbs-zero t d (sym n)) (record {
      size = refl;
      limbs = ht;
      number =
          omega
            (arith, mod-eq_of_lt {n = v} {m = p} (omega (arith, value-lt-radix d hd, ap radix n)));
    })
select_Holds (suc zero) zero p v t d h1 h2 fits n ht hd e f small =
    absurd (omega (arith, value-lt-radix t ht))
select_Holds (suc zero) (suc zero) p v t d h1 h2 fits n ht hd e f small =
    rw (select_limbs-ones t d (sym n) ht hd) (record {
      size = n;
      limbs = hd;
      number =
          omega
            (arith, mod_once v p (omega (arith, value-lt-radix d hd, ap radix n)) (omega arith));
    })
select_Holds (suc (suc hi)) borrow p v t d h1 h2 fits n ht hd e f small = absurd (omega arith)
select_Holds zero (suc (suc b)) p v t d h1 h2 fits n ht hd e f small = absurd (omega arith)
select_Holds (suc zero) (suc (suc b)) p v t d h1 h2 fits n ht hd e f small = absurd (omega arith)

-- Of a value below twice the modulus, given as an array and one more bit, `cond_sub_p` writes the
-- value modulo the modulus.
pub cond_sub_p-Holds :
    (t : List ℕ) (hi : ℕ) (p : List ℕ) (v : ℕ)
    → length t ≡ length p
    → IsLimbs t
    → IsLimbs p
    → hi ≤ 1
    → v ≡ value t + radix (length t) * hi
    → v < value p + value p
    → Holds (length t) (v % value p) (cond_sub_p t hi p)
unfolding cond_sub_p select_mask
cond_sub_p-Holds t hi p v n ht hp bit e small =
    let sub = overflowing_sub_loop_lem t p 0 n ht hp (omega arith) in
    select_Holds hi (overflowing_sub_loop t p 0).1 (value p) v t (overflowing_sub_loop t p 0).0 bit
      sub.0.bit (omega (arith, value-lt-radix p hp, ap radix n)) sub.0.size ht sub.0.limbs
      (omega (arith, sub.1)) e small

sub_zero :
    (t p : List ℕ)
    → length t ≡ length p
    → IsLimbs t
    → IsLimbs p
    → (sub_loop t (mask_limbs 0 p) 0).0 ≡ t
sub_zero t p n ht hp =
    let (nz, lz, vz) = mask_limbs-zero p in
    let same = sub_loop-eq-overflowing_sub_loop t (mask_limbs 0 p) 0 ht lz (omega arith) in
    let sub = overflowing_sub_loop_lem t (mask_limbs 0 p) 0 (n ∙ sym nz) ht lz (omega arith) in
    ap (λ r. r.0) same
    ∙ value-injective (overflowing_sub_loop t (mask_limbs 0 p) 0).0 t sub.0.size sub.0.limbs ht (
        no_borrow (overflowing_sub_loop t (mask_limbs 0 p) 0).1 sub.0.bit (omega (arith, sub.1, vz))
          (value-lt-radix t ht) (omega (arith, value-lt-radix _ sub.0.limbs, ap radix sub.0.size)))
  where
    no_borrow : {x y r : ℕ} (b : ℕ) → b ≤ 1 → x ≡ y + r * b → y < r → x < r → x ≡ y
    no_borrow zero h e k l = omega arith
    no_borrow (suc b) h e k l = absurd (grind arith)

abbrev masked : ℕ → ℕ → ℕ
masked hi b = wrapping_neg32 (bit_xor (wrapping_sub32 hi (bit_and (u32 (minus b)) 1) / 2 ^ 31) 1)

-- With a top bit of 0 or 1 the masked subtraction `cond_sub_p_n` equals the selection
-- `cond_sub_p`.
pub cond_sub_p_n-eq-cond_sub_p :
    (t : List ℕ) (hi : ℕ) (p : List ℕ)
    → length t ≡ length p
    → IsLimbs t
    → IsLimbs p
    → hi ≤ 1
    → cond_sub_p_n t hi p ≡ cond_sub_p t hi p
unfolding cond_sub_p_n cond_sub_p
cond_sub_p_n-eq-cond_sub_p t hi p n ht hp bit =
    let same = sub_loop-eq-overflowing_sub_loop t p 0 ht hp (omega arith) in
    let sub = overflowing_sub_loop_lem t p 0 n ht hp (omega arith) in
    ap
      (λ b.
        (sub_loop t
          (mask_limbs (wrapping_neg32 (bit_xor (wrapping_sub32 hi (bit_and (u32 b) 1) / 2 ^ 31) 1))
            p)
          0).0)
      (ap (λ r. r.1) same)
    ∙ (choose hi (overflowing_sub_loop t p 0).1 (overflowing_sub_loop t p 0).0 bit sub.0.bit
        sub.0.size sub.0.limbs (ap (λ r. r.0) same))
  where
    choose :
        (hi b : ℕ) (d : List ℕ)
        → hi ≤ 1
        → b ≤ 1
        → length d ≡ length t
        → IsLimbs d
        → (sub_loop t p 0).0 ≡ d
        → (sub_loop t (mask_limbs (masked hi b) p) 0).0
          ≡ select_limbs (wrapping_sub32 (wrapping_sub32 hi b / 2 ^ 31) 1) t d
    choose zero zero d h k m l e = rw (mask_limbs-ones p hp, select_limbs-ones t d (sym m) ht l) e
    choose zero (suc zero) d h k m l e = rw (select_limbs-zero t d (sym m)) (sub_zero t p n ht hp)
    choose (suc zero) zero d h k m l e =
        rw (mask_limbs-ones p hp, select_limbs-ones t d (sym m) ht l) e
    choose (suc zero) (suc zero) d h k m l e =
        rw (mask_limbs-ones p hp, select_limbs-ones t d (sym m) ht l) e
    choose (suc (suc hi)) b d h k m l e = absurd (omega arith)
    choose zero (suc (suc b)) d h k m l e = absurd (omega arith)
    choose (suc zero) (suc (suc b)) d h k m l e = absurd (omega arith)

-- With no bit above the array, the selection by the borrow alone is `cond_sub_p`.
pub select-eq-cond_sub_p :
    (a p : List ℕ)
    → length a ≡ length p
    → IsLimbs a
    → IsLimbs p
    → select_limbs
        (wrapping_sub32 (overflowing_sub_loop a p 0).1 1)
        a
        (overflowing_sub_loop a p 0).0
      ≡ cond_sub_p a 0 p
unfolding cond_sub_p
select-eq-cond_sub_p a p n ha hp =
    let sub = overflowing_sub_loop_lem a p 0 n ha hp (omega arith) in
    ap (λ u. select_limbs (wrapping_sub32 u 1) a (overflowing_sub_loop a p 0).0)
      (bit (overflowing_sub_loop a p 0).1 sub.0.bit)
  where
    bit : (b : ℕ) → b ≤ 1 → b ≡ wrapping_sub32 0 b / 2 ^ 31
    bit b h = omega arith
