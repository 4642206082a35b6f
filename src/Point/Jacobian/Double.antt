-- ===== src/Point/Jacobian/Double.antt =====
-- Doubling in Jacobian coordinates of src/point.rs as formulas on numbers.
use mcu_crypto_asm.Base.{
  ℕ, ◌+◌, ◌*◌, ◌/◌, ◌%◌, ◌≡◌, refl, ap, sym, ◌∙◌, arith, Cong, Cong-mul, Cong-add_mul, Cong-cancel,
  Cong-cancel_add,
}
use mcu_crypto_asm.Bignum.Value.{value}
use mcu_crypto_asm.Curve.{CurveParams}
use mcu_crypto_asm.Fe.{Fe, add, div2}
use mcu_crypto_asm.Fe.Laws.{Stands}
use mcu_crypto_asm.Point.Domain.{IsCurve, is_zero-Stands, is_zero-nonzero, Stands-Cong}
use mcu_crypto_asm.Point.Signed.{
  Means, of_Stands, to_Stands, Means-mul, Means-sqr, Means-add, Means-sub, Means-eq, Means-product,
  Means-square,
}
use mcu_crypto_asm.Point.Jacobian.{PointJacobian, double, at_infinity}
use mcu_crypto_asm.Point.Jacobian.Half.{div2-Stands}

module _ (c : CurveParams) (k : IsCurve c) where
  abbrev prime : ℕ
  prime = value c.field.p

  abbrev Is : ℕ → ℕ → Fe → Type 0
  Is a b v = Means c.field k.field a b v

  -- The point's coordinates.
  pub record IsPlaced (x y z : ℕ) (p : PointJacobian) : Type 0 where
    pub placed_x : Stands c.field k.field x p.x
    pub placed_y : Stands c.field k.field y p.y
    pub placed_z : Stands c.field k.field z p.z

  -- The tangent's third point for the slope `m / Z`, scaled:
  -- X = m^2 - 2 x y^2
  -- Y = m (x y^2 - X) - y^4
  -- Z = y z
  pub record IsTangent (x y z m : ℕ) (p : PointJacobian) : Type 0 where
    pub tangent_x : Is (m * m) (2 * (x * (y * y))) p.x
    pub tangent_y : Is (3 * (m * (x * (y * y)))) (m * m * m + y * y * (y * y)) p.y
    pub tangent_z : Is (y * z) 0 p.z

  pub record IsDoubled (x y z m : ℕ) (p out : PointJacobian) : Type 0 where
    pub stays : Cong prime z 0 → out ≡ p
    pub moves : ¬ Cong prime z 0 → IsTangent x y z m out

  is : (x : ℕ) {v : Fe} → Stands c.field k.field x v → Is x 0 v
  is x s = of_Stands c.field k.field x s

  -- `a - b` and half of it.
  with_half :
      (a b m : ℕ) (v : Fe)
      → Is a b v
      → Cong prime (2 * m + 3 * b) (3 * a)
      → Is m 0 (add c.field v (div2 c.field v))
  with_half a b m v s e =
      let f = c.field in
      let h = k.field in
      let n = s.number in
      let half = (prime + 1) / 2 in
      let sum = Means-add f h (is n s.stands) (is (n * half) (div2-Stands c k n v s.stands)) in
      let number : Is (n + n * half) 0 (add f v (div2 f v)) =
        Means-eq f h (n + n * half) 0 (omega arith) sum in
      let two : half * 2 ≡ prime + 1 = omega (arith, k.odd) in
      let unit : Cong prime (half * 2) 1 =
        ap (λ t. t % prime) (omega (arith, two)) ∙ Cong-add_mul prime 1 1 in
      let twice : Cong prime (2 * (n + n * half)) (3 * n) =
        ap (λ t. t % prime) (omega (arith, ap (λ t. n * t) two)) ∙ Cong-add_mul prime (3 * n) n in
      let three : Cong prime (3 * n + 3 * b) (2 * m + 3 * b) =
        ap (λ t. t % prime) (omega arith) ∙ Cong-mul prime 3 3 (n + b) a refl s.same ∙ sym e in
      let positive = h.modulus.positive in
      let same : Cong prime (n + n * half) m =
        Cong-cancel prime 2 half (n + n * half) m unit
          (twice ∙ Cong-cancel_add prime (3 * n) (2 * m) (3 * b) (omega (arith, positive)) three) in
      is m (Stands-Cong f h (n + n * half) m same (to_Stands f h number))

  -- On a curve, for every `m` with `2 m = 3 (x^2 - z^4)` modulo the prime, `double` leaves a
  -- point at infinity as it is, and of any other point computes the tangent's formulas.
  pub double-IsDoubled :
      (x y z m : ℕ) (p : PointJacobian)
      → IsPlaced x y z p
      → Cong prime (2 * m + 3 * (z * z * (z * z))) (3 * (x * x))
      → IsDoubled x y z m p (double c p)
  unfolding double at_infinity
  double-IsDoubled x y z m p s e =
      let f = c.field in
      let h = k.field in
      let zero = is_zero-Stands f h z p.z s.placed_z in
      let px = is x s.placed_x in
      let py = is y s.placed_y in
      let pz = is z s.placed_z in
      let zz = Means-square f h z pz in
      let product =
        Means-eq f h (x * x) (z * z * (z * z)) (omega arith)
          (Means-mul f h (Means-sub f h px zz) (Means-add f h px zz)) in
      let t1 = with_half (x * x) (z * z * (z * z)) m _ product e in
      let yy = Means-square f h y py in
      let y2 = Means-product f h x (y * y) px yy in
      let x3 =
        Means-eq f h (m * m) (2 * (x * (y * y))) (omega arith)
          (Means-sub f h (Means-sqr f h t1) (Means-add f h y2 y2)) in
      let y3 =
        Means-eq f h (3 * (m * (x * (y * y)))) (m * m * m + y * y * (y * y)) (omega arith)
          (Means-sub f h (Means-mul f h t1 (Means-sub f h y2 x3)) (Means-sqr f h yy)) in
      let z3 = Means-product f h y z py pz in
      record {
        stays = λ gone. rw (zero.1 gone) refl;
        moves = λ there.
            rw (is_zero-nonzero f h z p.z s.placed_z there)
              (record { tangent_x = x3; tangent_y = y3; tangent_z = z3 });
      }
