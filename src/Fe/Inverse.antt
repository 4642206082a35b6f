-- ===== src/Fe/Inverse.antt =====
-- The addition chains of `invert` and `sqrt`, as powers.
use mcu_crypto_asm.Base.{ℕ, zero, suc, ◌+◌, ◌-◌, ◌*◌, ◌^◌, ◌≡◌, ap, List, length, arith}
use mcu_crypto_asm.Bignum.Domain.{IsModulus}
use mcu_crypto_asm.Bignum.Power.{IsPow, IsPow-mul, IsPow-exp}
use mcu_crypto_asm.Curve.{Params}
use mcu_crypto_asm.Fe.{
  sqr_n, mul, sqr, Chain, chain, chain_255, invert_8, invert_12, sqrt_8, sqrt_12,
}
use native.Mathlib.Nat.{pow-suc, pow-zero}

-- What the code relies on of a field's constants.
pub record IsField (f : Params) : Type 0 where
  pub modulus : IsModulus f.p f.r2 f.n0inv
  pub size : f.n ≡ length f.p

module _ (f : Params) (m : IsModulus f.p f.r2 f.n0inv) (x : ℕ) where
  -- `v` is the Montgomery form of `x ^ e`.
  abbrev pub Pow : ℕ → List ℕ → Type 0
  Pow e v = IsPow f.p f.r2 f.n0inv m x e v

  pub mul-Pow : (e k : ℕ) {a b : List ℕ} → Pow e a → Pow k b → Pow (e + k) (mul f a b)
  unfolding mul
  mul-Pow e k ha hb = IsPow-mul f.p f.r2 f.n0inv m x e k ha hb

  -- `n` squarings multiply the exponent by `2 ^ n`.
  pub sqr_n-Pow : (n e : ℕ) (a : List ℕ) → Pow e a → Pow (e * 2 ^ n) (sqr_n f n a)
  unfolding sqr_n sqr
  sqr_n-Pow zero e a h = IsPow-exp f.p f.r2 f.n0inv m x (omega (arith, pow-zero 2)) h
  sqr_n-Pow (suc n) e a h =
      IsPow-exp f.p f.r2 f.n0inv m x (omega (arith, ap (λ (t : ℕ). e * t) (pow-suc 2 n)))
        (sqr_n-Pow n (e + e) (sqr f a) (IsPow-mul f.p f.r2 f.n0inv m x e e h h))

  -- `n` squarings, then a multiplication.
  pub step-Pow :
      (n e k : ℕ) {a b : List ℕ} → Pow e a → Pow k b → Pow (e * 2 ^ n + k) (mul f (sqr_n f n a) b)
  step-Pow n e k {a} ha hb = mul-Pow (e * 2 ^ n) k (sqr_n-Pow n e a ha) hb

  pub record ChainPow (c : Chain) : Type 0 where
    pub p2 : Pow (2 ^ 2 - 1) c.t2
    pub p3 : Pow (2 ^ 3 - 1) c.t3
    pub p15 : Pow (2 ^ 15 - 1) c.t15
    pub p30 : Pow (2 ^ 30 - 1) c.t30
    pub p32 : Pow (2 ^ 32 - 1) c.t32

  pub chain-Pow : (a : List ℕ) → Pow 1 a → ChainPow (chain f a)
  unfolding chain
  chain-Pow a h =
      let p2 = step-Pow 1 1 1 h h in
      let p3 = step-Pow 1 3 1 p2 h in
      let p6 = step-Pow 3 7 7 p3 p3 in
      let p12 = step-Pow 6 (2 ^ 6 - 1) (2 ^ 6 - 1) p6 p6 in
      let p15 = step-Pow 3 (2 ^ 12 - 1) 7 p12 p3 in
      let p30 = step-Pow 15 (2 ^ 15 - 1) (2 ^ 15 - 1) p15 p15 in
      let p32 = step-Pow 2 (2 ^ 30 - 1) 3 p30 p2 in
      record { p2 = p2; p3 = p3; p15 = p15; p30 = p30; p32 = p32 }

  -- The chain for eight limbs raises to the power `p - 2` of P-256.
  pub invert_8-Pow :
      (a : List ℕ) → Pow 1 a → Pow (2 ^ 256 - 2 ^ 224 + 2 ^ 192 + 2 ^ 96 - 3) (invert_8 f a)
  unfolding invert_8
  invert_8-Pow a h =
      let c = chain-Pow a h in
      let p60 = step-Pow 30 (2 ^ 30 - 1) (2 ^ 30 - 1) c.p30 c.p30 in
      let p62 = step-Pow 2 (2 ^ 60 - 1) 3 p60 c.p2 in
      let p92 = step-Pow 30 (2 ^ 62 - 1) (2 ^ 30 - 1) p62 c.p30 in
      let p94 = step-Pow 2 (2 ^ 92 - 1) 3 p92 c.p2 in
      let acc = sqr_n-Pow 31 (2 ^ 32 - 1) _ c.p32 in
      let acc = step-Pow 1 ((2 ^ 32 - 1) * 2 ^ 31) 1 acc h in
      let acc = sqr_n-Pow 96 ((2 ^ 32 - 1) * 2 ^ 32 + 1) _ acc in
      let acc = step-Pow 94 (((2 ^ 32 - 1) * 2 ^ 32 + 1) * 2 ^ 96) (2 ^ 94 - 1) acc p94 in
      let acc =
        sqr_n-Pow 1 ((((2 ^ 32 - 1) * 2 ^ 32 + 1) * 2 ^ 96) * 2 ^ 94 + (2 ^ 94 - 1)) _ acc in
      step-Pow 1 (((((2 ^ 32 - 1) * 2 ^ 32 + 1) * 2 ^ 96) * 2 ^ 94 + (2 ^ 94 - 1)) * 2) 1 acc h

  chain_255-Pow : (c : Chain) → ChainPow c → Pow (2 ^ 255 - 1) (chain_255 f c)
  unfolding chain_255
  chain_255-Pow c h =
      let p60 = step-Pow 30 (2 ^ 30 - 1) (2 ^ 30 - 1) h.p30 h.p30 in
      let p120 = step-Pow 60 (2 ^ 60 - 1) (2 ^ 60 - 1) p60 p60 in
      let p240 = step-Pow 120 (2 ^ 120 - 1) (2 ^ 120 - 1) p120 p120 in
      step-Pow 15 (2 ^ 240 - 1) (2 ^ 15 - 1) p240 h.p15

  -- `(2^255 - 1) * 2^33 + (2^32 - 1)`, the start of both chains for twelve limbs
  abbrev top_287 : ℕ
  top_287 = (2 ^ 256 - 2) * 2 ^ 32 + (2 ^ 32 - 1)

  top_287-Pow :
      (a : List ℕ)
      → Pow 1 a
      → Pow top_287 (mul f (sqr_n f 32 (sqr_n f 1 (chain_255 f (chain f a)))) (chain f a).t32)
  top_287-Pow a h =
      let c = chain-Pow a h in
      step-Pow 32 (2 ^ 256 - 2) (2 ^ 32 - 1)
        (sqr_n-Pow 1 (2 ^ 255 - 1) _ (chain_255-Pow (chain f a) c)) c.p32

  -- The chain for twelve limbs raises to the power `p - 2` of P-384.
  pub invert_12-Pow :
      (a : List ℕ) → Pow 1 a → Pow (2 ^ 384 - 2 ^ 128 - 2 ^ 96 + 2 ^ 32 - 3) (invert_12 f a)
  unfolding invert_12
  invert_12-Pow a h =
      let c = chain-Pow a h in
      let acc = sqr_n-Pow 64 top_287 _ (top_287-Pow a h) in
      let acc = step-Pow 30 (top_287 * 2 ^ 64) (2 ^ 30 - 1) acc c.p30 in
      let acc = sqr_n-Pow 1 (top_287 * 2 ^ 64 * 2 ^ 30 + (2 ^ 30 - 1)) _ acc in
      step-Pow 1 ((top_287 * 2 ^ 64 * 2 ^ 30 + (2 ^ 30 - 1)) * 2) 1 acc h

  -- The square-root chains raise to `(p + 1) / 4`.
  pub sqrt_8-Pow : (a : List ℕ) → Pow 1 a → Pow (2 ^ 254 - 2 ^ 222 + 2 ^ 190 + 2 ^ 94) (sqrt_8 f a)
  unfolding sqrt_8
  sqrt_8-Pow a h =
      let c = chain-Pow a h in
      let acc = step-Pow 32 (2 ^ 32 - 1) 1 c.p32 h in
      let acc = step-Pow 96 ((2 ^ 32 - 1) * 2 ^ 32 + 1) 1 acc h in
      sqr_n-Pow 94 (((2 ^ 32 - 1) * 2 ^ 32 + 1) * 2 ^ 96 + 1) _ acc

  pub sqrt_12-Pow : (a : List ℕ) → Pow 1 a → Pow (2 ^ 382 - 2 ^ 126 - 2 ^ 94 + 2 ^ 30) (sqrt_12 f a)
  unfolding sqrt_12
  sqrt_12-Pow a h =
      sqr_n-Pow 30 (top_287 * 2 ^ 64 + 1) _ (step-Pow 64 top_287 1 (top_287-Pow a h) h)
