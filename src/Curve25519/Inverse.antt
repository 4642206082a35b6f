-- ===== src/Curve25519/Inverse.antt =====
-- The addition chain of `invert` in src/curve25519/portable.rs, as powers.
use mcu_crypto_asm.Base.{ℕ, zero, suc, ◌+◌, ◌-◌, ◌*◌, ◌%◌, ◌^◌, ◌≡◌, ap, sym, ◌∙◌, arith, Cong-mul}
use mcu_crypto_asm.Bignum.Power.{pow_add}
use mcu_crypto_asm.Curve25519.{Fe51, mul, sqr, sqr_n, invert}
use mcu_crypto_asm.Curve25519.Limbs.{prime, number, IsCarried, IsCarried-IsLoose}
use mcu_crypto_asm.Curve25519.Field.{residue, mul_mod, mul_lem}
use native.Mathlib.Nat.{pow-suc, pow-zero}

module _ (x : ℕ) where
  -- `v` is carried and stands for `x ^ e`.
  pub record IsPow (e : ℕ) (v : Fe51) : Type 0 where
    pub carried : IsCarried v
    pub power : residue v ≡ x ^ e % prime

  mul-IsPow : (e k : ℕ) {a b : Fe51} → IsPow e a → IsPow k b → IsPow (e + k) (mul a b)
  unfolding residue mul_mod
  mul-IsPow e k {a} {b} h g =
      let (small, product) = mul_lem (IsCarried-IsLoose h.carried) (IsCarried-IsLoose g.carried) in
      record {
        carried = small;
        power =
            product
            ∙ Cong-mul prime (residue a) (x ^ e) (residue b) (x ^ k) (twice (number a) ∙ h.power)
                (twice (number b) ∙ g.power)
            ∙ ap (λ t. t % prime) (sym (pow_add x e k));
      }
    where
      twice : (n : ℕ) → n % prime % prime ≡ n % prime
      twice n = omega arith

  exp-IsPow : {e k : ℕ} {a : Fe51} → e ≡ k → IsPow e a → IsPow k a
  exp-IsPow same h = record { carried = h.carried; power = h.power ∙ ap (λ t. x ^ t % prime) same }

  sqr-IsPow : (e : ℕ) {a : Fe51} → IsPow e a → IsPow (e * 2) (sqr a)
  unfolding sqr
  sqr-IsPow e h = exp-IsPow (omega arith) (mul-IsPow e e h h)

  sqr_n-IsPow : (n e : ℕ) (a : Fe51) → IsPow e a → IsPow (e * 2 ^ n) (sqr_n n a)
  unfolding sqr_n
  sqr_n-IsPow zero e a h = exp-IsPow (omega (arith, pow-zero 2)) h
  sqr_n-IsPow (suc n) e a h =
      exp-IsPow (omega (arith, ap (λ (t : ℕ). e * t) (pow-suc 2 n)))
        (sqr_n-IsPow n (e * 2) (sqr a) (sqr-IsPow e h))

  -- A squaring, `n` more and a multiplication.
  step-IsPow :
      (n e k : ℕ) {a b : Fe51}
      → IsPow e a
      → IsPow k b
      → IsPow (e * 2 * 2 ^ n + k) (mul (sqr_n n (sqr a)) b)
  step-IsPow n e k {a} h g =
      mul-IsPow (e * 2 * 2 ^ n) k (sqr_n-IsPow n (e * 2) (sqr a) (sqr-IsPow e h)) g

  pub invert-IsPow : (a : Fe51) → IsPow 1 a → IsPow (2 ^ 255 - 21) (invert a)
  unfolding invert
  invert-IsPow a h =
      let p2 = sqr-IsPow 1 h in
      let p9 = mul-IsPow 1 8 h (sqr-IsPow 4 (sqr-IsPow 2 p2)) in
      let p11 = mul-IsPow 2 9 p2 p9 in
      let p5 = mul-IsPow 9 22 p9 (sqr-IsPow 11 p11) in
      let p10 = step-IsPow 4 31 31 p5 p5 in
      let p20 = step-IsPow 9 (2 ^ 10 - 1) (2 ^ 10 - 1) p10 p10 in
      let p40 = step-IsPow 19 (2 ^ 20 - 1) (2 ^ 20 - 1) p20 p20 in
      let p50 = step-IsPow 9 (2 ^ 40 - 1) (2 ^ 10 - 1) p40 p10 in
      let p100 = step-IsPow 49 (2 ^ 50 - 1) (2 ^ 50 - 1) p50 p50 in
      let p200 = step-IsPow 99 (2 ^ 100 - 1) (2 ^ 100 - 1) p100 p100 in
      let p250 = step-IsPow 49 (2 ^ 200 - 1) (2 ^ 50 - 1) p200 p50 in
      let q = sqr-IsPow ((2 ^ 250 - 1) * 2) (sqr-IsPow (2 ^ 250 - 1) p250) in
      let q = sqr-IsPow ((2 ^ 250 - 1) * 8) (sqr-IsPow ((2 ^ 250 - 1) * 4) q) in
      let q = sqr-IsPow ((2 ^ 250 - 1) * 16) q in mul-IsPow ((2 ^ 250 - 1) * 32) 11 q p11

-- Of an element with limbs of 51 bits, the second one with a small carry on top, `invert` gives
-- such an element, which stands for the power `p - 2` modulo `2 ^ 255 - 19`.
pub invert_lem :
    (a : Fe51)
    → IsCarried a
    → IsCarried (invert a) × (residue (invert a) ≡ residue a ^ (prime - 2) % prime)
unfolding residue
invert_lem a h =
    let p = invert-IsPow (residue a) a (record { carried = h; power = first (number a) }) in
    (p.carried, p.power)
  where
    first : (n : ℕ) → n % prime ≡ (n % prime) ^ 1 % prime
    first n =
        let e : (n % prime) ^ 1 ≡ n % prime =
          pow-suc (n % prime) 0 ∙ ap (λ t. t * (n % prime)) (pow-zero (n % prime)) ∙ omega arith in
        rw e (omega arith)
