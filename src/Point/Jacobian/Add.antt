-- ===== src/Point/Jacobian/Add.antt =====
-- Both additions in Jacobian coordinates of src/point.rs, in all their branches.
use mcu_crypto_asm.Base.{ℕ, ◌+◌, ◌*◌, ◌≡◌, refl, arith, Cong}
use mcu_crypto_asm.Bignum.Value.{value}
use mcu_crypto_asm.Curve.{CurveParams}
use mcu_crypto_asm.Fe.{Fe}
use mcu_crypto_asm.Fe.Laws.{Stands}
use mcu_crypto_asm.Point.Domain.{IsCurve, is_zero-Stands, is_zero-nonzero}
use mcu_crypto_asm.Point.Signed.{
  Means, of_Stands, Means-sub, Means-eq, Means-product, Means-square, Means-number,
}
use mcu_crypto_asm.Point.Jacobian.{PointJacobian, at_infinity, from_affine, add_mixed, add_jacobian}
use mcu_crypto_asm.Point.Jacobian.Double.{IsPlaced}
use mcu_crypto_asm.Point.Jacobian.Chord.{IsJoined, add_or_double-IsJoined}

module _ (c : CurveParams) (k : IsCurve c) where
  abbrev prime : ℕ
  prime = value c.field.p

  abbrev Is : ℕ → ℕ → Fe → Type 0
  Is a b v = Means c.field k.field a b v

  is : (x : ℕ) {v : Fe} → Stands c.field k.field x v → Is x 0 v
  is x s = of_Stands c.field k.field x s

  -- The sum with an affine point.
  pub record IsMixed (x y z h r : ℕ) (p : PointJacobian) (x2 y2 : Fe) (out : PointJacobian)
      : Type 0 where
    pub starts : Cong prime z 0 → out ≡ from_affine c.field x2 y2
    pub meets : ¬ Cong prime z 0 → IsJoined c k x y z h r p out

  -- The sum with a point in Jacobian coordinates.
  pub record IsAdded (x1 y1 z1 z2 h r : ℕ) (p q out : PointJacobian) : Type 0 where
    pub left : Cong prime z1 0 → out ≡ q
    pub right : ¬ Cong prime z1 0 → Cong prime z2 0 → out ≡ p
    pub both :
        ¬ Cong prime z1 0
        → ¬ Cong prime z2 0
        → IsJoined c k (x1 * (z2 * z2)) (y1 * z2 * (z2 * z2)) (z1 * z2) h r p out

  -- On a curve, with `h = x2 z^2 - x` and `r = y2 z^3 - y` modulo the prime, `add_mixed` of a
  -- point at infinity gives the affine one; of any other it doubles the point when `h` and `r`
  -- are zero, gives the identity when only `h` is, and computes the chord's formulas otherwise.
  pub add_mixed-IsMixed :
      (x y z x2 y2 h r : ℕ) (p : PointJacobian) (qx qy : Fe)
      → IsPlaced c k x y z p
      → Stands c.field k.field x2 qx
      → Stands c.field k.field y2 qy
      → Cong prime (h + x) (x2 * (z * z))
      → Cong prime (r + y) (y2 * (z * (z * z)))
      → IsMixed x y z h r p qx qy (add_mixed c p qx qy)
  unfolding add_mixed at_infinity
  add_mixed-IsMixed x y z x2 y2 h r p qx qy t s2 t2 eh er =
      let f = c.field in
      let g = k.field in
      let zero = is_zero-Stands f g z p.z t.placed_z in
      let px = is x t.placed_x in
      let py = is y t.placed_y in
      let pz = is z t.placed_z in
      let zz = Means-square f g z pz in
      let zzz = Means-product f g z (z * z) pz zz in
      let u2 = Means-product f g x2 (z * z) (is x2 s2) zz in
      let v2 = Means-product f g y2 (z * (z * z)) (is y2 t2) zzz in
      let hv =
        Means-number f g h eh (Means-eq f g (x2 * (z * z)) x (omega arith) (Means-sub f g u2 px)) in
      let rv =
        Means-number f g r er
          (Means-eq f g (y2 * (z * (z * z))) y (omega arith) (Means-sub f g v2 py)) in
      let zh = Means-product f g z h pz (is h hv) in
      record {
        starts = λ gone. rw (zero.1 gone) refl;
        meets = λ there.
            rw (is_zero-nonzero f g z p.z t.placed_z there)
              (add_or_double-IsJoined c k x y z h r p _ _ _ _ _ hv rv px py zh);
      }

  -- On a curve, with `h = x2 z1^2 - x1 z2^2` and `r = y2 z1^3 - y1 z2^3` modulo the prime, `add`
  -- with a point at infinity gives the other point; of any other two it doubles the first when
  -- `h` and `r` are zero, gives the identity when only `h` is, and computes the chord's formulas
  -- otherwise.
  pub add_jacobian-IsAdded :
      (x1 y1 z1 x2 y2 z2 h r : ℕ) (p q : PointJacobian)
      → IsPlaced c k x1 y1 z1 p
      → IsPlaced c k x2 y2 z2 q
      → Cong prime (h + x1 * (z2 * z2)) (x2 * (z1 * z1))
      → Cong prime (r + y1 * z2 * (z2 * z2)) (y2 * z1 * (z1 * z1))
      → IsAdded x1 y1 z1 z2 h r p q (add_jacobian c p q)
  unfolding add_jacobian at_infinity
  add_jacobian-IsAdded x1 y1 z1 x2 y2 z2 h r p q s t eh er =
      let f = c.field in
      let g = k.field in
      let p_zero = is_zero-Stands f g z1 p.z s.placed_z in
      let q_zero = is_zero-Stands f g z2 q.z t.placed_z in
      let pz = is z1 s.placed_z in
      let qz = is z2 t.placed_z in
      let z1z1 = Means-square f g z1 pz in
      let z2z2 = Means-square f g z2 qz in
      let u1 = Means-product f g x1 (z2 * z2) (is x1 s.placed_x) z2z2 in
      let u2 = Means-product f g x2 (z1 * z1) (is x2 t.placed_x) z1z1 in
      let s1 =
        Means-product f g (y1 * z2) (z2 * z2) (Means-product f g y1 z2 (is y1 s.placed_y) qz)
          z2z2 in
      let s2 =
        Means-product f g (y2 * z1) (z1 * z1) (Means-product f g y2 z1 (is y2 t.placed_y) pz)
          z1z1 in
      let hv =
        Means-number f g h eh
          (Means-eq f g (x2 * (z1 * z1)) (x1 * (z2 * z2)) (omega arith) (Means-sub f g u2 u1)) in
      let rv = Means-number f g r er (
        Means-eq f g (y2 * z1 * (z1 * z1)) (y1 * z2 * (z2 * z2)) (omega arith)
          (Means-sub f g s2 s1)) in
      let zh = Means-product f g (z1 * z2) h (Means-product f g z1 z2 pz qz) (is h hv) in
      record {
        left = λ gone. rw (p_zero.1 gone) refl;
        right = λ there gone. rw (is_zero-nonzero f g z1 p.z s.placed_z there, q_zero.1 gone) refl;
        both = λ there there'.
            rw
              (
                is_zero-nonzero f g z1 p.z s.placed_z there,
                is_zero-nonzero f g z2 q.z t.placed_z there',
              )
              (add_or_double-IsJoined c k _ _ _ h r p _ _ _ _ _ hv rv u1 s1 zh);
      }
