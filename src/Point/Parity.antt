-- ===== src/Point/Parity.antt =====
-- The range test and the choice of a root by its parity, in `decompress` of src/point.rs.
use mcu_crypto_asm.Base.{
  ℕ, ◌+◌, ◌-◌, ◌*◌, ◌%◌, ◌<◌, ◌≤◌, ◌≡◌, ◌↔◌, ◌⊎◌, inl, inr, refl, ap, sym, ◌∙◌, arith, List, [],
  ◌∷◌, length, Cong, Cong-mul, Cong-add_mul, Cong-cancel_add, Bool, true, false, not, ◌&&◌, ◌||◌,
  Bool-cases, ==_iff, ◌==◌, if◌then◌else◌,
}
use mcu_crypto_asm.Base.{replicate}
use native.Mathlib.Nat.{mod-mod, mod-lt}
use mcu_crypto_asm.Bignum.{overflowing_sub_loop}
use mcu_crypto_asm.Bignum.Value.{value, IsLimbs}
use mcu_crypto_asm.Bignum.Chains.{overflowing_sub_loop_lem}
use mcu_crypto_asm.Curve.{CurveParams}
use mcu_crypto_asm.Fe.{Fe, to_int, sub}
use mcu_crypto_asm.Fe.Compare.{borrow_iff}
use mcu_crypto_asm.Fe.Laws.{Stands, to_int-Holds}
use mcu_crypto_asm.Point.{not_below, odd_limbs, with_parity}
use mcu_crypto_asm.Point.Domain.{IsCurve, Stands-Cong, zero-Stands}
use mcu_crypto_asm.Point.Signed.{of_Stands, to_Stands, Means-sub, Means-eq, Means-Cong}

module _ (c : CurveParams) (k : IsCurve c) where
  abbrev prime : ℕ
  prime = value c.field.p

  -- Limbs of the field's size.
  pub record IsWide (a : List ℕ) : Type 0 where
    pub size : length a ≡ length c.field.p
    pub limbs : IsLimbs a

  pub not_below_iff : (a : List ℕ) → IsWide a → (not_below c.field a ≡ false) ↔ (value a < prime)
  not_below_iff a w =
      let bit =
        (overflowing_sub_loop_lem a c.field.p 0 w.size w.limbs k.field.modulus.limbs
          (omega arith)).0.bit in
      let test = borrow_iff a c.field.p w.size w.limbs k.field.modulus.limbs in
      let other = one_or_zero (overflowing_sub_loop a c.field.p 0).1 bit in
      ((λ e. test.0 (other.0 e)), (λ e. other.1 (test.1 e)))
    where
      one_or_zero : (b : ℕ) → b ≤ 1 → ((b == 0) ≡ false) ↔ ((b == 1) ≡ true)
      one_or_zero b h = ground arith

  -- The parity of an array of limbs is that of its value.
  odd_limbs-value : (a : List ℕ) → odd_limbs a ≡ (value a % 2 == 1)
  unfolding odd_limbs
  odd_limbs-value [] = refl
  odd_limbs-value (x ∷ a) = ap (λ t. t == 1) (omega arith)

  -- The root with the parity that is asked for: the other one is the prime less the first.
  pub record HasParity (asked : Bool) (y : ℕ) (v : Fe) : Type 0 where
    pub root : ℕ
    pub below : root < prime
    pub stands : Stands c.field k.field root v
    pub square : Cong prime (root * root) (y * y)
    pub parity : ((root % 2 == 1) ≡ asked) ⊎ (root ≡ 0)

  -- The element has the parity already.
  keep :
      (asked : Bool) (y : ℕ) (v : Fe)
      → Stands c.field k.field y v
      → (y % prime % 2 == 1) ≡ asked
      → HasParity asked y v
  keep asked y v s e =
      let twice = mod-mod y prime in
      record {
        root = y % prime;
        below = mod-lt y {m = prime} (omega (arith, k.field.modulus.positive));
        stands = Stands-Cong c.field k.field y (y % prime) (sym twice) s;
        square = Cong-mul prime (y % prime) y (y % prime) y twice twice;
        parity = inl e;
      }

  opposite :
      (asked : Bool) (r d : ℕ) → (d + r) % 2 ≡ 1 → (r % 2 == 1) ≡ not asked → (d % 2 == 1) ≡ asked
  opposite true r d h e = ground arith
  opposite false r d h e = ground arith

  -- It has the other one, so it is taken from the prime.
  swap :
      (asked : Bool) (y : ℕ) (v : Fe)
      → Stands c.field k.field y v
      → (y % prime % 2 == 1) ≡ not asked
      → HasParity asked y (sub c.field (replicate c.field.n 0) v)
  swap asked y v s e =
      let f = c.field in
      let h = k.field in
      let r = y % prime in
      let twice = mod-mod y prime in
      let below = mod-lt y {m = prime} (omega (arith, k.field.modulus.positive)) in
      let minus =
        Means-sub f h (of_Stands f h 0 (zero-Stands f h))
          (of_Stands f h r (Stands-Cong f h y r (sym twice) s)) in
      elim (Bool-cases (r == 0)) [
        | inl z ↦
            let zero : r ≡ 0 = (==_iff r 0).0 z in
            record {
              root = 0;
              below = omega (arith, k.field.modulus.positive);
              stands = to_Stands f h (Means-eq f h 0 0 (omega (arith, zero)) minus);
              square = ap (λ t. t * t % prime) (sym zero) ∙ Cong-mul prime r y r y twice twice;
              parity = inr refl;
            }
        | inr nz ↦
            let positive : 0 < r = ground (arith, nz) in
            let d = prime - r in
            let sum : d + r ≡ prime = omega (arith, below) in
            let whole : (t : ℕ) → Cong prime (t * d + t * r) 0 = λ t.
              ap (λ n. n % prime) (omega (arith, ap (λ (n : ℕ). t * n) sum))
              ∙ Cong-add_mul prime 0 t in
            record {
              root = d;
              below = omega (arith, positive, below);
              stands = to_Stands f h (
                  Means-eq f h d 0 (omega (arith, sum)) (
                    Means-Cong f h prime
                      (sym (Cong-add_mul prime 0 1) ∙ ap (λ n. n % prime) (omega arith)) minus));
              square =
                  Cong-cancel_add prime (d * d) (r * r) (d * r)
                    (omega (arith, k.field.modulus.positive))
                    (whole d ∙ sym (whole r) ∙ ap (λ n. n % prime) (omega arith))
                  ∙ Cong-mul prime r y r y twice twice;
              parity = inl (opposite asked r d (omega (arith, sum, k.odd)) e);
            }
      ]

  pub with_parity-HasParity :
      (asked : Bool) (y : ℕ) (v : Fe)
      → Stands c.field k.field y v
      → HasParity asked y (with_parity c.field asked v)
  unfolding with_parity
  with_parity-HasParity asked y v s =
      let same : odd_limbs (to_int c.field v) ≡ (y % prime % 2 == 1) =
        odd_limbs-value (to_int c.field v)
        ∙ ap (λ t. t % 2 == 1) (to_int-Holds c.field k.field y v s).number in
      rw same (choose asked (y % prime % 2 == 1) (keep asked y v s) (swap asked y v s))
    where
      choose :
          (asked cur : Bool)
          → (cur ≡ asked → HasParity asked y v)
          → (cur ≡ not asked → HasParity asked y (sub c.field (replicate c.field.n 0) v))
          → HasParity asked y (
              if (cur && asked) || (not cur && not asked)
              then v
              else sub c.field (replicate c.field.n 0) v)
      choose true true a b = a refl
      choose true false a b = b refl
      choose false true a b = b refl
      choose false false a b = a refl
