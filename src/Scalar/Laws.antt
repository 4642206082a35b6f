-- ===== src/Scalar/Laws.antt =====
-- Scalars through Montgomery form, and their encodings.
use mcu_crypto_asm.Base.{◌+◌, ◌*◌, ◌%◌, ◌∙◌, replicate, length-replicate, sym}
use mcu_crypto_asm.Bignum.Value.{radix}
use mcu_crypto_asm.Bignum.Domain.{mul-Represents, add-Represents, sub-Represents}
use mcu_crypto_asm.Fe.Domain.{replicate_zero}
use mcu_crypto_asm.Scalar.{mul, add, sub, neg}
use mcu_crypto_asm.Base.{ℕ, ◌*◌, ◌%◌, ◌<◌, ◌≤◌, ◌≡◌, refl, ap, sym, ◌∙◌, List, length, arith}
use mcu_crypto_asm.Base.{true, ==_iff, ◌↔◌}
use mcu_crypto_asm.Bytes.{limbs_to_be, be_limbs-limbs_to_be, length-limbs_to_be}
use mcu_crypto_asm.Bignum.Value.{value, IsLimbs, value-injective}
use mcu_crypto_asm.Bignum.Reduce.{Holds}
use mcu_crypto_asm.Bignum.Domain.{IsModulus, Represents, leave-Holds, enter-Represents}
use mcu_crypto_asm.Curve.{CurveParams}
use mcu_crypto_asm.Scalar.{Scalar, ok, less_than, from_int, to_int}
use mcu_crypto_asm.Scalar.{from_be_bytes, to_be_bytes}
use mcu_crypto_asm.Fe.{one_limbs}
use mcu_crypto_asm.Fe.Domain.{one_limbs_lem}
use mcu_crypto_asm.Fe.Compare.{borrow_iff}
use native.Mathlib.Nat.{mod-eq_of_lt}

abbrev pub IsOrder : CurveParams → Type 0
IsOrder c = IsModulus c.order c.order_r2 c.order_n0inv

-- An array of as many limbs as the order has.
pub record IsWide (c : CurveParams) (a : List ℕ) : Type 0 where
  pub size : length a ≡ length c.order
  pub limbs : IsLimbs a

module _ (c : CurveParams) (m : IsOrder c) where
  -- `s` is the Montgomery form of `x`.
  abbrev pub Stands : ℕ → Scalar → Type 0
  Stands x s = Represents c.order c.order_r2 c.order_n0inv m x s

  pub to_int-Holds :
      (x : ℕ) (s : Scalar) → Stands x s → Holds (length c.order) (x % value c.order) (to_int c s)
  unfolding to_int
  to_int-Holds x s h =
      let (n, l, e) = one_limbs_lem (length c.order) m.nonempty in
      leave-Holds c.order c.order_r2 c.order_n0inv m x s (one_limbs (length c.order)) h n l e

  pub from_int-Stands :
      (a : List ℕ) → IsWide c a → value a ≤ value c.order → Stands (value a) (from_int c a)
  unfolding from_int
  from_int-Stands a w small =
      enter-Represents c.order c.order_r2 c.order_n0inv m a w.size w.limbs small

  pub to_int-from_int :
      (a : List ℕ) → IsWide c a → value a < value c.order → to_int c (from_int c a) ≡ a
  to_int-from_int a w small =
      let out = to_int-Holds (value a) (from_int c a) (from_int-Stands a w (omega arith)) in
      value-injective (to_int c (from_int c a)) a (out.size ∙ sym w.size) out.limbs w.limbs
        (out.number ∙ mod-eq_of_lt small)

  zero-Stands : Stands 0 (replicate (length c.order) 0)
  zero-Stands =
      let (l, v) = replicate_zero (length c.order) in
      let none : radix (length c.order) * 0 ≡ 0 = omega arith in
      record {
        size = length-replicate {A = ℕ} (length c.order) 0;
        limbs = l;
        number =
            v
            ∙ sym (
                ap (λ t. t % value c.order) none
                ∙ mod-eq_of_lt {n = 0} {m = value c.order} (omega (arith, m.positive)));
      }

  -- `mul`, `add`, `sub` and `neg` of scalars in Montgomery form give the Montgomery forms of the
  -- product, the sum, a difference and a negative of what the arguments stand for.
  pub scalar_arithmetic-Stands :
      (x y z w : ℕ) (a b : Scalar)
      → Stands x a
      → Stands y b
      → (z + y) % value c.order ≡ x % value c.order
      → (w + x) % value c.order ≡ 0
      → Stands (x * y) (mul c a b)
        × Stands (x + y) (add c a b)
        × Stands z (sub c a b)
        × Stands w (neg c a)
  unfolding mul add sub neg
  scalar_arithmetic-Stands x y z w a b s t e f = (
    mul-Represents c.order c.order_r2 c.order_n0inv m x y a b s t,
    add-Represents c.order c.order_r2 c.order_n0inv m x y a b s t,
    sub-Represents c.order c.order_r2 c.order_n0inv m x y z a b s t e,
    sub-Represents c.order c.order_r2 c.order_n0inv m 0 x w (replicate (length c.order) 0) a
        zero-Stands s
        (f ∙ sym (mod-eq_of_lt {n = 0} {m = value c.order} (omega (arith, m.positive)))),
  )

  -- `less_than` compares values.
  pub less_than_iff :
      (a : List ℕ) → IsWide c a → (less_than a c.order ≡ true) ↔ (value a < value c.order)
  unfolding less_than
  less_than_iff a w = borrow_iff a c.order w.size w.limbs m.limbs

  -- For every array of limbs below the order, `to_be_bytes` of its scalar succeeds and
  -- `from_be_bytes` reads what it wrote back as that scalar.
  pub from_be_bytes-to_be_bytes :
      (a : List ℕ)
      → IsWide c a
      → value a < value c.order
      → (bytes : List ℕ) × (to_be_bytes c (from_int c a) (4 * length c.order) ≡ ok bytes)
        × (from_be_bytes c bytes ≡ ok (from_int c a))
  unfolding to_be_bytes from_be_bytes
  from_be_bytes-to_be_bytes a w small =
      let same = to_int-from_int a w small in
      let size = length-limbs_to_be a ∙ ap (λ k. 4 * k) w.size in
      (
        limbs_to_be a,
        rw (same, (==_iff (4 * length c.order) (4 * length c.order)).1 refl, to_be_bytes),
        rw (
          be_limbs-limbs_to_be a w.limbs,
          (==_iff (length (limbs_to_be a)) (4 * length c.order)).1 size,
          (less_than_iff a w).1 small,
          from_be_bytes,
        ),
      )
