-- ===== src/Bignum/Domain.antt =====
-- Montgomery form: an array represents `x` when it holds `x * R` modulo `p`, reduced.
use mcu_crypto_asm.Base.{ℕ, ◌+◌, ◌-◌, ◌*◌, ◌%◌, ◌<◌, ◌≤◌, ◌≡◌, refl, ap, ap₂, sym, ◌∙◌}
use mcu_crypto_asm.Base.{
  List, length, arith, Cong, Cong-add_mul, Cong-mul, Cong-add, Cong-cancel, Cong-cancel_add,
}
use mcu_crypto_asm.Bignum.{mul_mont, add_mod_n, sub_mod_n}
use mcu_crypto_asm.Bignum.Value.{value, radix, IsLimbs}
use mcu_crypto_asm.Bignum.Reduce.{Holds}
use mcu_crypto_asm.Bignum.AddSub.{
  IsOperands, add_mod-Holds, add_mod_n-eq-add_mod, sub_mod-Holds, sub_mod_n-eq-sub_mod,
}
use mcu_crypto_asm.Bignum.Mont.{IsNegInverse}
use mcu_crypto_asm.Bignum.MulMont.{mul_mont-Product}
use native.Mathlib.Nat.{mod-lt, mod-mod, add-mod}

-- What the code relies on of its constants: an odd modulus of `n` limbs, coprime to `R`, with
-- `n0inv` its negated inverse and `r2` the residue of `R * R`.
pub record IsModulus (p r2 : List ℕ) (n0inv : ℕ) : Type 0 where
  pub limbs : IsLimbs p
  pub nonempty : 0 < length p
  pub positive : 1 < value p
  pub inverse : IsNegInverse p n0inv
  pub r_inv : ℕ
  pub unit : Cong (value p) (r_inv * radix (length p)) 1
  pub r2_size : length r2 ≡ length p
  pub r2_limbs : IsLimbs r2
  pub r2_square : Cong (value p) (value r2) (radix (length p) * radix (length p))

module _ (p r2 : List ℕ) (n0inv : ℕ) (m : IsModulus p r2 n0inv) where
  -- The array `v` is the Montgomery form of `x`.
  abbrev pub Represents : ℕ → List ℕ → Type 0
  Represents x v = Holds (length p) ((radix (length p) * x) % value p) v

  pub Represents-below : (x : ℕ) {v : List ℕ} → Represents x v → value v < value p
  Represents-below x h =
      omega
        (arith, h.number, mod-lt (radix (length p) * x) {m = value p} (omega (arith, m.positive)))

  -- The product in the domain, from the number that the loop has computed.
  pub mul_value :
      (a b : List ℕ) (z : ℕ)
      → length a ≡ length p
      → length b ≡ length p
      → IsLimbs a
      → IsLimbs b
      → value a ≤ value p
      → Cong (value p) (value a * value b) (radix (length p) * z)
      → Holds (length p) (z % value p) (mul_mont a b p n0inv)
  mul_value a b z na nb ha hb small e =
      let (v, q, sum, out) =
        mul_mont-Product a p n0inv na m.nonempty ha m.limbs m.inverse small b hb
          (omega (arith, m.positive)) in
      let same : Cong (value p) (radix (length p) * v) (radix (length p) * z) =
        ap (λ k. (radix k * v) % value p) (sym nb)
        ∙ ap (λ t. t % value p) sum
        ∙ Cong-add_mul (value p) (value a * value b) q
        ∙ e in
      record {
        size = out.size;
        limbs = out.limbs;
        number = out.number ∙ Cong-cancel (value p) (radix (length p)) m.r_inv v z m.unit same;
      }

  -- Montgomery multiplication multiplies what is represented.
  pub mul-Represents :
      (x y : ℕ) (a b : List ℕ)
      → Represents x a
      → Represents y b
      → Represents (x * y) (mul_mont a b p n0inv)
  mul-Represents x y a b ha hb =
      mul_value a b (radix (length p) * (x * y)) ha.size hb.size ha.limbs hb.limbs
        (omega (arith, Represents-below x ha))
        (ap₂ (λ s t. (s * t) % value p) ha.number hb.number
          ∙ Cong-mul (value p) ((r * x) % value p) (r * x) ((r * y) % value p) (r * y)
              (mod-mod (r * x) (value p)) (mod-mod (r * y) (value p))
          ∙ ap (λ t. t % value p) (omega arith))
    where
      r : ℕ
      r = radix (length p)

  -- Multiplication by the residue of `R * R` enters the domain.
  pub enter-Represents :
      (a : List ℕ)
      → length a ≡ length p
      → IsLimbs a
      → value a ≤ value p
      → Represents (value a) (mul_mont a r2 p n0inv)
  enter-Represents a na ha small = mul_value a r2 (r * value a) na m.r2_size ha m.r2_limbs small (
      Cong-mul (value p) (value a) (value a) (value r2) (r * r) refl m.r2_square
      ∙ ap (λ t. t % value p) (omega arith))
    where
      r : ℕ
      r = radix (length p)

  -- Multiplication by one leaves it.
  pub leave-Holds :
      (x : ℕ) (a one : List ℕ)
      → Represents x a
      → length one ≡ length p
      → IsLimbs one
      → value one ≡ 1
      → Holds (length p) (x % value p) (mul_mont a one p n0inv)
  leave-Holds x a one ha n h e =
      mul_value a one x ha.size n ha.limbs h (omega (arith, Represents-below x ha)) (
        ap₂ (λ s t. (s * t) % value p) ha.number e
        ∙ ap (λ t. t % value p) (omega arith)
        ∙ mod-mod (radix (length p) * x) (value p))

  operands : (x y : ℕ) (a b : List ℕ) → Represents x a → Represents y b → IsOperands a b p
  operands x y a b ha hb = record {
    a_size = ha.size;
    b_size = hb.size;
    a_limbs = ha.limbs;
    b_limbs = hb.limbs;
    p_limbs = m.limbs;
    a_below = Represents-below x ha;
    b_below = Represents-below y hb;
  }

  pub add-Represents :
      (x y : ℕ) (a b : List ℕ)
      → Represents x a
      → Represents y b
      → Represents (x + y) (add_mod_n a b p)
  add-Represents x y a b ha hb =
      let ops = operands x y a b ha hb in
      let out = add_mod-Holds a b p ops in
      rw (add_mod_n-eq-add_mod a b p ops) (record {
        size = out.size;
        limbs = out.limbs;
        number =
            out.number
            ∙ ap₂ (λ s t. (s + t) % value p) ha.number hb.number
            ∙ sym (add-mod (radix (length p) * x) (radix (length p) * y) (value p))
            ∙ ap (λ t. t % value p) (omega arith);
      })

  -- `z` is a difference of `x` and `y` when `z + y` is `x`, modulo `p`.
  pub sub-Represents :
      (x y z : ℕ) (a b : List ℕ)
      → Represents x a
      → Represents y b
      → Cong (value p) (z + y) x
      → Represents z (sub_mod_n a b p)
  sub-Represents x y z a b ha hb e =
      let ops = operands x y a b ha hb in
      let out = sub_mod-Holds a b p ops in
      rw (sub_mod_n-eq-sub_mod a b p ops) (record {
        size = out.size;
        limbs = out.limbs;
        number =
            out.number
            ∙ Cong-cancel_add (value p) (value a + value p - value b) (r * z) (value b)
                (omega (arith, m.positive)) (sum ops);
      })
    where
      r : ℕ
      r = radix (length p)

      sum :
          IsOperands a b p
          → Cong (value p) (value a + value p - value b + value b) (r * z + value b)
      sum ops =
          ap (λ t. t % value p) (omega (arith, ops.b_below))
          ∙ Cong-add_mul (value p) (value a) 1
          ∙ ap (λ t. t % value p) ha.number
          ∙ mod-mod (r * x) (value p)
          ∙ Cong-mul (value p) r r x (z + y) refl (sym e)
          ∙ ap (λ t. t % value p) (omega arith)
          ∙ sym (
              Cong-add (value p) (r * z) (r * z) (value b) (r * y) refl
                (ap (λ t. t % value p) hb.number ∙ mod-mod (r * y) (value p)))
