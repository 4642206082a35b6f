-- ===== src/Base/Modular.antt =====
-- Congruence modulo a number.
use Prim.Native.Nat.{ℕ, zero, suc, ◌+◌, ◌-◌, ◌*◌, ◌/◌, ◌%◌, ◌^◌, ◌<◌, ◌≤◌}
use mathlib.Core.Path.{◌≡◌, refl, ap, ap₂, sym, ◌∙◌}
use native.Mathlib.Nat.{div-add-mod, add-mul-mod_self_left, mul_comm, mul_assoc}
use native.Mathlib.Nat.{add-mod, pow-suc, pow-zero}
use native.Mathlib.Omega.{arith}

-- `a` and `b` leave the same remainder.
abbrev pub Cong : ℕ → ℕ → ℕ → Type 0
Cong p a b = a % p ≡ b % p

module _ (p : ℕ) where
  -- A multiple of `p` makes no difference.
  pub Cong-add_mul : (a q : ℕ) → Cong p (a + q * p) a
  Cong-add_mul a q = ap (λ t. (a + t) % p) (mul_comm q p) ∙ add-mul-mod_self_left a p q

  pub mod-mul_left : (a b : ℕ) → Cong p (a % p * b) (a * b)
  mod-mul_left a b =
      sym (Cong-add_mul (a % p * b) (a / p * b))
      ∙ ap (λ t. t % p) (omega (arith, ap (λ (t : ℕ). t * b) (div-add-mod a p)))

  pub Cong-mul : (a a' b b' : ℕ) → Cong p a a' → Cong p b b' → Cong p (a * b) (a' * b')
  Cong-mul a a' b b' e f =
      sym (mod-mul_left a b)
      ∙ ap (λ t. (t * b) % p) e
      ∙ mod-mul_left a' b
      ∙ ap (λ t. t % p) (mul_comm a' b)
      ∙ sym (mod-mul_left b a')
      ∙ ap (λ t. (t * a') % p) f
      ∙ mod-mul_left b' a'
      ∙ ap (λ t. t % p) (mul_comm b' a')

  pub Cong-add : (a a' b b' : ℕ) → Cong p a a' → Cong p b b' → Cong p (a + b) (a' + b')
  Cong-add a a' b b' e f = add-mod a b p ∙ ap₂ (λ s t. (s + t) % p) e f ∙ sym (add-mod a' b' p)

  -- An invertible factor cancels.
  pub Cong-cancel : (r s a b : ℕ) → Cong p (s * r) 1 → Cong p (r * a) (r * b) → Cong p a b
  Cong-cancel r s a b unit e = strip a ∙ Cong-mul s s (r * a) (r * b) refl e ∙ sym (strip b)
    where
      strip : (x : ℕ) → Cong p x (s * (r * x))
      strip x =
          ap (λ t. t % p) (omega arith)
          ∙ Cong-mul 1 (s * r) x x (sym unit) refl
          ∙ ap (λ t. t % p) (mul_assoc s r x)

  pub Cong-pow : (a b n : ℕ) → Cong p a b → Cong p (a ^ n) (b ^ n)
  Cong-pow a b zero e = ap (λ t. t % p) (pow-zero a ∙ sym (pow-zero b))
  Cong-pow a b (suc n) e =
      ap (λ t. t % p) (pow-suc a n)
      ∙ Cong-mul (a ^ n) (b ^ n) a b (Cong-pow a b n e) e
      ∙ ap (λ t. t % p) (sym (pow-suc b n))

  -- So does a summand, for a positive modulus.
  pub Cong-cancel_add : (a b c : ℕ) → 0 < p → Cong p (a + c) (b + c) → Cong p a b
  Cong-cancel_add a b c pos e =
      sym (restored a) ∙ Cong-add (a + c) (b + c) (c * p - c) (c * p - c) e refl ∙ restored b
    where
      fits : c ≤ c * p
      fits = grind arith

      restored : (x : ℕ) → Cong p (x + c + (c * p - c)) x
      restored x = ap (λ t. t % p) (omega (arith, fits)) ∙ Cong-add_mul x c
