-- ===== src/Point/Affine.antt =====
-- `is_on_curve` of src/point.rs, on the numbers of the coordinates.
use mcu_crypto_asm.Base.{
  ℕ, zero, suc, ◌+◌, ◌-◌, ◌*◌, ◌%◌, ◌^◌, ◌≡◌, ◌↔◌, ◌⊎◌, inl, inr, refl, ap, sym, ◌∙◌, arith, Cong,
  true, Bool-cases, clash,
}
use native.Mathlib.Nat.{pow-suc, pow-zero, mod-mod, mod-lt, mod-eq_of_lt}
use mcu_crypto_asm.Bignum.Value.{value}
use mcu_crypto_asm.Curve.{CurveParams}
use mcu_crypto_asm.Fe.{Fe, from_int, to_int, mul, sqr, invert, is_zero}
use mcu_crypto_asm.Fe.Compare.{ct_eq_iff}
use mcu_crypto_asm.Fe.Laws.{Stands, to_int-Holds, from_int-Stands}
use mcu_crypto_asm.Point.{Point, is_identity, to_affine, curve_rhs, satisfies, is_on_curve}
use mcu_crypto_asm.Point.Domain.{IsCurve, Stands-Cong, is_zero-Stands}
use mcu_crypto_asm.Point.Signed.{
  Means, of_Stands, to_Stands, Means-mul, Means-sqr, Means-add, Means-sub, Means-eq, Means-eq_iff,
}
use mcu_crypto_asm.Point.Sum.{IsAt}

module _ (c : CurveParams) (k : IsCurve c) where
  abbrev prime : ℕ
  prime = value c.field.p

  -- `y^2 = x^3 - 3x + b`
  abbrev pub OnCurve : ℕ → ℕ → Type 0
  OnCurve x y = Cong prime (y * y + 3 * x) (x * x * x + k.b)

  pub curve_rhs-Means :
      (x : ℕ) {v : Fe}
      → Stands c.field k.field x v
      → Means c.field k.field (x * x * x + k.b) (3 * x) (curve_rhs c v)
  unfolding curve_rhs
  curve_rhs-Means x s =
      let f = c.field in
      let h = k.field in
      let m = of_Stands f h x s in
      Means-eq f h (x * x * x + k.b) (3 * x) (omega arith) (
        Means-add f h
          (Means-sub f h (Means-mul f h (Means-sqr f h m) m) (Means-add f h (Means-add f h m m) m))
          (of_Stands f h k.b k.b_stands))

  -- What leaves the Montgomery form and enters it again stands for the same.
  again :
      (x : ℕ) (v : Fe)
      → Stands c.field k.field x v
      → Stands c.field k.field x (from_int c.field (to_int c.field v))
  again x v s =
      let out = to_int-Holds c.field k.field x v s in
      let below = mod-lt x {m = prime} (omega (arith, k.field.modulus.positive)) in
      Stands-Cong c.field k.field (value (to_int c.field v)) x
        (ap (λ t. t % prime) out.number ∙ mod-mod x prime)
        (from_int-Stands c.field k.field (to_int c.field v) out.size out.limbs
          (omega (arith, out.number, below)))

  satisfies-OnCurve :
      (x y : ℕ) (u v : Fe)
      → Stands c.field k.field x u
      → Stands c.field k.field y v
      → (satisfies c (to_int c.field u, to_int c.field v) ≡ true) ↔ OnCurve x y
  unfolding satisfies
  satisfies-OnCurve x y u v s t =
      let f = c.field in
      let h = k.field in
      let left = Means-sqr f h (of_Stands f h y (again y v t)) in
      let right = curve_rhs-Means x (again x u s) in
      let lhs = sqr f (from_int f (to_int f v)) in
      let rhs = curve_rhs c (from_int f (to_int f u)) in
      let test = ct_eq_iff lhs rhs (left.stands.size ∙ sym right.stands.size) in
      let same = Means-eq_iff f h left right in
      let bare : y * y + 0 * 0 + 3 * x ≡ y * y + 3 * x = omega arith in
      let bare' : x * x * x + k.b + (y * 0 + 0 * y) ≡ x * x * x + k.b = omega arith in
      (
        (λ e. ap (λ n. n % prime) (sym bare) ∙ same.0 (test.0 e) ∙ ap (λ n. n % prime) bare'),
        (λ e. test.1 (same.1 (ap (λ n. n % prime) bare ∙ e ∙ ap (λ n. n % prime) (sym bare')))),
      )

  -- On a curve, `is_on_curve` is true exactly of the points with `Z` zero modulo the prime, and
  -- of those whose `X` and `Y`, times the power `p - 2` of `Z`, satisfy `y ^ 2 = x ^ 3 - 3 x +
  -- b`.
  pub is_on_curve-OnCurve :
      (x y z : ℕ) (p : Point)
      → IsAt c k x y z p
      → (is_on_curve c p ≡ true)
        ↔ (Cong prime z 0 ⊎ OnCurve (x * z ^ (prime - 2)) (y * z ^ (prime - 2)))
  unfolding is_on_curve is_identity to_affine
  is_on_curve-OnCurve x y z p s =
      let f = c.field in
      let h = k.field in
      let zero = is_zero-Stands f h z p.z s.at_z in
      let inverse = k.inverse z p.z s.at_z in
      let affine : (u : ℕ) (v : Fe)
          → Stands f h u v
          → Stands f h (u * z ^ (prime - 2)) (mul f v (invert f p.z)) =
        λ u v t. to_Stands f h (
          Means-eq f h (u * z ^ (prime - 2)) 0 (omega arith)
            (Means-mul f h (of_Stands f h u t) (of_Stands f h (z ^ (prime - 2)) inverse))) in
      let test =
        satisfies-OnCurve (x * z ^ (prime - 2)) (y * z ^ (prime - 2)) _ _ (affine x p.x s.at_x)
          (affine y p.y s.at_y) in
      elim (Bool-cases (is_zero p.z)) [
        | inl e ↦ rw e ((λ _. inl (zero.0 e)), (λ _. refl))
        | inr e ↦ rw e (
          (λ t. inr (test.0 t)),
          (λ t. elim t [ inl q ↦ absurd (clash e (zero.1 q)) | inr q ↦ test.1 q ]),
        )
      ]

  one-pow : (n : ℕ) → 1 ^ n ≡ 1
  one-pow zero = pow-zero 1
  one-pow (suc n) = pow-suc 1 n ∙ omega (arith, one-pow n)

  -- With the Montgomery one for `Z`.
  pub affine_point-OnCurve :
      (x y : ℕ) (p : Point) → IsAt c k x y 1 p → (is_on_curve c p ≡ true) ↔ OnCurve x y
  affine_point-OnCurve x y p s =
      let test = is_on_curve-OnCurve x y 1 p s in
      let ex : x * 1 ^ (prime - 2) ≡ x =
        omega (arith, ap (λ (t : ℕ). x * t) (one-pow (prime - 2))) in
      let ey : y * 1 ^ (prime - 2) ≡ y =
        omega (arith, ap (λ (t : ℕ). y * t) (one-pow (prime - 2))) in
      let nonzero : ¬ Cong prime 1 0 = λ e. omega (
        arith,
        e,
        mod-eq_of_lt {n = 1} {m = prime} (omega (arith, k.field.modulus.positive)),
        mod-eq_of_lt {n = 0} {m = prime} (omega (arith, k.field.modulus.positive)),
      ) in
      (
        (λ t. elim (test.0 t) [ inl q ↦ absurd (nonzero q) | inr q ↦ rw (ex, ey) at q ]),
        (λ q. test.1 (inr (rw (ex, ey) q))),
      )
