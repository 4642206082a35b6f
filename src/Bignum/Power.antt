-- ===== src/Bignum/Power.antt =====
-- Addition chains in Montgomery form: which power of `x` an array represents.
use mcu_crypto_asm.Base.{ℕ, zero, suc, ◌+◌, ◌*◌, ◌^◌, ◌≡◌, ap, sym, ◌∙◌, List, arith}
use mcu_crypto_asm.Bignum.{mul_mont}
use mcu_crypto_asm.Bignum.Domain.{IsModulus, Represents, mul-Represents}
use mathlib.Core.Path.{subst}
use native.Mathlib.Nat.{pow-suc, pow-zero, mul_assoc, mul-one}

pub pow_add : (x e f : ℕ) → x ^ (e + f) ≡ x ^ e * x ^ f
pow_add x e zero =
    let same : e + 0 ≡ e = omega arith in
    ap (λ k. x ^ k) same ∙ sym (mul-one (x ^ e)) ∙ ap (λ t. x ^ e * t) (sym (pow-zero x))
pow_add x e (suc f) =
    let same : e + suc f ≡ suc (e + f) = omega arith in
    ap (λ k. x ^ k) same
    ∙ pow-suc x (e + f)
    ∙ ap (λ t. t * x) (pow_add x e f)
    ∙ mul_assoc (x ^ e) (x ^ f) x
    ∙ ap (λ t. x ^ e * t) (sym (pow-suc x f))

pow_one : (x : ℕ) → x ^ 1 ≡ x
pow_one x = pow-suc x 0 ∙ ap (λ t. t * x) (pow-zero x) ∙ omega arith

module _ (p r2 : List ℕ) (n0inv : ℕ) (m : IsModulus p r2 n0inv) (x : ℕ) where
  -- `v` is the Montgomery form of `x ^ e`.
  pub record IsPow (e : ℕ) (v : List ℕ) : Type 0 where
    pub power : Represents p r2 n0inv m (x ^ e) v

  pub IsPow-mul :
      (e f : ℕ) {a b : List ℕ} → IsPow e a → IsPow f b → IsPow (e + f) (mul_mont a b p n0inv)
  IsPow-mul e f {a} {b} ha hb = record {
    power =
        subst (λ k. Represents p r2 n0inv m k (mul_mont a b p n0inv)) (sym (pow_add x e f))
          (mul-Represents p r2 n0inv m (x ^ e) (x ^ f) a b ha.power hb.power);
  }

  pub IsPow-one : {a : List ℕ} → Represents p r2 n0inv m x a → IsPow 1 a
  IsPow-one {a} h = record { power = subst (λ k. Represents p r2 n0inv m k a) (sym (pow_one x)) h }

  pub IsPow-exp : {e f : ℕ} {a : List ℕ} → e ≡ f → IsPow e a → IsPow f a
  IsPow-exp {a} same h = subst (λ k. IsPow k a) same h
