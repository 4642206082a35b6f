-- ===== src/Fe/Compare.antt =====
-- The constant-time tests: `is_zero`, `ct_eq`, and the borrow as a comparison.
use mcu_crypto_asm.Base.{
  ℕ, zero, suc, ◌+◌, ◌*◌, ◌<◌, ◌≤◌, ◌≡◌, refl, ap, ap₂, sym, ◌∙◌, List, length, arith,
}
use mcu_crypto_asm.Base.{true, ==_iff, ◌==◌}
use mcu_crypto_asm.Base.{
  [], ◌∷◌, ◌↔◌, bit_or, bit_xor, bit_or_eq_zero, eq_of_bit_xor_zero, bit_xor_self,
}
use mcu_crypto_asm.Bignum.{overflowing_sub_loop}
use mcu_crypto_asm.Bignum.Value.{value, radix, IsLimbs, value-lt-radix}
use mcu_crypto_asm.Bignum.Chains.{overflowing_sub_loop_lem}
use mcu_crypto_asm.Fe.{or_limbs, diff_limbs, is_zero, ct_eq}

or_limbs_zero : (acc : ℕ) (v : List ℕ) → or_limbs acc v ≡ 0 → (acc ≡ 0) × (value v ≡ 0)
unfolding or_limbs
or_limbs_zero acc [] e = (e, refl)
or_limbs_zero acc (w ∷ v) e =
    let (both, rest) = or_limbs_zero (bit_or acc w) v e in
    let (a, b) = bit_or_eq_zero (acc + w) acc w (omega arith) (omega arith) both in (a, omega arith)

zero_or_limbs : (v : List ℕ) → value v ≡ 0 → or_limbs 0 v ≡ 0
unfolding or_limbs
zero_or_limbs [] e = refl
zero_or_limbs (w ∷ v) e =
    let w0 : w ≡ 0 = omega arith in
    ap (λ t. or_limbs (bit_or 0 t) v) w0 ∙ zero_or_limbs v (omega arith)

-- The words gathered over an array are zero exactly when its value is.
pub or_limbs_iff : (v : List ℕ) → ((or_limbs 0 v == 0) ≡ true) ↔ (value v ≡ 0)
or_limbs_iff v = (
  (λ h. (or_limbs_zero 0 v ((==_iff (or_limbs 0 v) 0).0 h)).1),
  (λ h. (==_iff (or_limbs 0 v) 0).1 (zero_or_limbs v h)),
)

-- `is_zero` is true exactly of the arrays with the value zero.
pub is_zero_iff : (v : List ℕ) → (is_zero v ≡ true) ↔ (value v ≡ 0)
unfolding is_zero
is_zero_iff v = or_limbs_iff v

diff_limbs_zero :
    (acc : ℕ) (a b : List ℕ) → length a ≡ length b → diff_limbs acc a b ≡ 0 → (acc ≡ 0) × (a ≡ b)
unfolding diff_limbs
diff_limbs_zero acc [] [] n e = (e, refl)
diff_limbs_zero acc [] (y ∷ b) n e = absurd (omega arith)
diff_limbs_zero acc (x ∷ a) [] n e = absurd (omega arith)
diff_limbs_zero acc (x ∷ a) (y ∷ b) n e =
    let (both, rest) = diff_limbs_zero (bit_or acc (bit_xor x y)) a b (omega arith) e in
    let (l, r) =
      bit_or_eq_zero (acc + bit_xor x y) acc (bit_xor x y) (omega arith) (omega arith) both in
    (l, ap₂ ◌∷◌ (eq_of_bit_xor_zero x y r) rest)

diff_limbs_self : (a : List ℕ) → diff_limbs 0 a a ≡ 0
unfolding diff_limbs
diff_limbs_self [] = refl
diff_limbs_self (x ∷ a) = ap (λ t. diff_limbs (bit_or 0 t) a a) (bit_xor_self x) ∙ diff_limbs_self a

-- The differences gathered over two arrays of one length are zero exactly when they are equal.
pub diff_limbs_iff :
    (a b : List ℕ) → length a ≡ length b → ((diff_limbs 0 a b == 0) ≡ true) ↔ (a ≡ b)
diff_limbs_iff a b n = (
  (λ h. (diff_limbs_zero 0 a b n ((==_iff (diff_limbs 0 a b) 0).0 h)).1),
  (λ h. (==_iff (diff_limbs 0 a b) 0).1 (ap (diff_limbs 0 a) (sym h) ∙ diff_limbs_self a)),
)

-- On arrays of one length `ct_eq` is true exactly when they are equal.
pub ct_eq_iff : (a b : List ℕ) → length a ≡ length b → (ct_eq a b ≡ true) ↔ (a ≡ b)
unfolding ct_eq
ct_eq_iff a b n = diff_limbs_iff a b n

-- The final borrow of a difference is 1 exactly when the first value is the smaller.
pub borrow_iff :
    (a b : List ℕ)
    → length a ≡ length b
    → IsLimbs a
    → IsLimbs b
    → (((overflowing_sub_loop a b 0).1 == 1) ≡ true) ↔ (value a < value b)
borrow_iff a b n ha hb =
    let sub = overflowing_sub_loop_lem a b 0 n ha hb (omega arith) in
    let (lt, ge) =
      by_borrow (overflowing_sub_loop a b 0).1 (radix (length a)) sub.0.bit sub.1
        (omega (arith, value-lt-radix _ sub.0.limbs, ap radix sub.0.size)) in
    ((λ h. lt ((==_iff _ 1).0 h)), (λ h. (==_iff _ 1).1 (ge h)))
  where
    by_borrow :
        {d : ℕ} (c r : ℕ)
        → c ≤ 1
        → d + value b + 0 ≡ value a + r * c
        → d < r
        → (c ≡ 1 → value a < value b) × (value a < value b → c ≡ 1)
    by_borrow zero r k e l = (λ p. absurd (omega arith), λ p. absurd (omega arith))
    by_borrow (suc zero) r k e l = (λ p. omega arith, λ p. refl)
    by_borrow (suc (suc c)) r k e l = absurd (omega arith)
