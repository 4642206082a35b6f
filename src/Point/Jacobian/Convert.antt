-- ===== src/Point/Jacobian/Convert.antt =====
-- From projective to Jacobian coordinates and back, as src/point.rs does.
use mcu_crypto_asm.Base.{
  ℕ, ◌-◌, ◌*◌, ◌%◌, ◌^◌, ◌≡◌, refl, arith, Cong, true, replicate, length, Option, some, none,
}
use mcu_crypto_asm.Bignum.Reduce.{Holds}
use mcu_crypto_asm.Point.Jacobian.Double.{IsPlaced}
use mcu_crypto_asm.Bignum.Value.{value}
use mcu_crypto_asm.Curve.{CurveParams}
use mcu_crypto_asm.Fe.{Fe, mul, sqr, is_zero}
use mcu_crypto_asm.Fe.Laws.{to_int-Holds}
use mcu_crypto_asm.Point.{Point, identity, is_identity}
use mcu_crypto_asm.Point.Domain.{IsCurve, is_zero-Stands, is_zero-nonzero, zero-Stands}
use mcu_crypto_asm.Point.Sum.{IsAt}
use mcu_crypto_asm.Point.Signed.{
  of_Stands, to_Stands, Means-mul, Means-eq, Means-product, Means-square,
}
use mcu_crypto_asm.Point.Jacobian.{
  PointJacobian, at_infinity, jacobian_identity, from_projective, to_projective, jacobian_to_affine,
}

module _ (c : CurveParams) (k : IsCurve c) where
  abbrev prime : ℕ
  prime = value c.field.p

  pub record IsScaled (x y z : ℕ) (out : Point) : Type 0 where
    pub nowhere : Cong prime z 0 → out ≡ identity c.field
    pub somewhere : ¬ Cong prime z 0 → IsAt c k (z * z * x) (z * z * y) (z * z * z) out

  -- On a curve, `to_projective` of `from_projective` of a point gives the same point: all three
  -- coordinates multiplied by `Z^2`, and `(0 : 1 : 0)` when `Z` is zero modulo the prime.
  pub to_projective-from_projective :
      (x y z : ℕ) (p : Point)
      → IsAt c k x y z p
      → IsScaled x y z (to_projective c.field (from_projective c.field p))
  unfolding to_projective from_projective at_infinity is_identity jacobian_identity
  to_projective-from_projective x y z p s =
      let f = c.field in
      let g = k.field in
      let zero = is_zero-Stands f g z p.z s.at_z in
      let origin : is_zero (replicate f.n 0) ≡ true =
        (is_zero-Stands f g 0 (replicate f.n 0) (zero-Stands f g)).1 refl in
      let px = of_Stands f g x s.at_x in
      let py = of_Stands f g y s.at_y in
      let pz = of_Stands f g z s.at_z in
      let zz = Means-square f g z pz in
      let xj = Means-mul f g px pz in
      record {
        nowhere = λ gone. rw (zero.1 gone, origin) refl;
        somewhere = λ there.
            let nonzero = is_zero-nonzero f g z p.z s.at_z there in
            let moved : from_projective f p
                ≡ record { x = mul f p.x p.z; y = mul f p.y (sqr f p.z); z = p.z } =
              rw nonzero refl in
            rw (moved, nonzero)
              (record {
                at_x =
                    to_Stands f g (Means-eq f g (z * z * x) 0 (omega arith) (Means-mul f g xj pz));
                at_y =
                    to_Stands f g (Means-eq f g (z * z * y) 0 (omega arith) (Means-mul f g py zz));
                at_z =
                    to_Stands f g (Means-eq f g (z * z * z) 0 (omega arith) (Means-mul f g zz pz));
              });
      }

  -- Reduced coordinates.
  pub record IsCoordinates (x y : ℕ) (xy : Fe × Fe) : Type 0 where
    pub coordinate_x : Holds (length c.field.p) (x % prime) xy.0
    pub coordinate_y : Holds (length c.field.p) (y % prime) xy.1

  -- What the point is without its `Z`, where `w` is the power `p - 2` of `Z`.
  pub record IsFinite (x y z w : ℕ) (out : Option (Fe × Fe)) : Type 0 where
    pub infinite : Cong prime z 0 → out ≡ none
    pub finite :
        ¬ Cong prime z 0
        → (xy : Fe × Fe) × (out ≡ some xy) × IsCoordinates (x * (w * w)) (y * (w * w * w)) xy

  -- On a curve, `to_affine` answers nothing for a point at infinity, and for any other `X w^2`
  -- and `Y w^3` reduced modulo the prime, where `w` is the power `p - 2` of `Z`.
  pub jacobian_to_affine-IsFinite :
      (x y z : ℕ) (p : PointJacobian)
      → IsPlaced c k x y z p
      → IsFinite x y z (z ^ (prime - 2)) (jacobian_to_affine c.field p)
  unfolding jacobian_to_affine at_infinity
  jacobian_to_affine-IsFinite x y z p s =
      let f = c.field in
      let g = k.field in
      let zero = is_zero-Stands f g z p.z s.placed_z in
      let px = of_Stands f g x s.placed_x in
      let py = of_Stands f g y s.placed_y in
      let w = z ^ (prime - 2) in
      let inverse = of_Stands f g w (k.inverse z p.z s.placed_z) in
      let ww = Means-square f g w inverse in
      let www = Means-product f g (w * w) w ww inverse in
      let ax = to_Stands f g (Means-product f g x (w * w) px ww) in
      let ay = to_Stands f g (Means-product f g y (w * w * w) py www) in
      record {
        infinite = λ gone. rw (zero.1 gone) refl;
        finite = λ there. (
          _,
          rw (is_zero-nonzero f g z p.z s.placed_z there) refl,
          record {
            coordinate_x = to_int-Holds f g (x * (w * w)) _ ax;
            coordinate_y = to_int-Holds f g (y * (w * w * w)) _ ay;
          },
        );
      }
