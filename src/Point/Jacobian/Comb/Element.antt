-- ===== src/Point/Jacobian/Comb/Element.antt =====
-- The operations of Jacobian points of src/point.rs stay among reduced elements.
use mcu_crypto_asm.Base.{ℕ, ◌*◌, Bool-cases, inl, inr, replicate}
use mcu_crypto_asm.Curve.{CurveParams}
use mcu_crypto_asm.Fe.{Fe, mul, sqr, add, sub, div2, is_zero}
use mcu_crypto_asm.Fe.Laws.{Stands}
use mcu_crypto_asm.Point.Domain.{IsCurve, zero-Stands}
use mcu_crypto_asm.Point.Signed.{Means, of_Stands, Means-mul, Means-sqr, Means-add, Means-sub}
use mcu_crypto_asm.Point.Jacobian.{
  PointJacobian, jacobian_identity, at_infinity, from_affine, double, chord, add_or_double,
  add_mixed,
}
use mcu_crypto_asm.Point.Jacobian.Half.{div2-Stands, half}

module _ (c : CurveParams) (k : IsCurve c) where
  pub record IsElement (v : Fe) : Type 0 where
    pub number : ℕ
    pub stands : Stands c.field k.field number v

  pub record IsJacobian (p : PointJacobian) : Type 0 where
    pub element_x : IsElement p.x
    pub element_y : IsElement p.y
    pub element_z : IsElement p.z

  of_Means : {a b : ℕ} {v : Fe} → Means c.field k.field a b v → IsElement v
  of_Means s = record { number = s.number; stands = s.stands }

  to_Means : {v : Fe} (s : IsElement v) → Means c.field k.field s.number 0 v
  to_Means s = of_Stands c.field k.field s.number s.stands

  mul-IsElement : {v w : Fe} → IsElement v → IsElement w → IsElement (mul c.field v w)
  mul-IsElement s t = of_Means (Means-mul c.field k.field (to_Means s) (to_Means t))

  sqr-IsElement : {v : Fe} → IsElement v → IsElement (sqr c.field v)
  sqr-IsElement s = of_Means (Means-sqr c.field k.field (to_Means s))

  add-IsElement : {v w : Fe} → IsElement v → IsElement w → IsElement (add c.field v w)
  add-IsElement s t = of_Means (Means-add c.field k.field (to_Means s) (to_Means t))

  sub-IsElement : {v w : Fe} → IsElement v → IsElement w → IsElement (sub c.field v w)
  sub-IsElement s t = of_Means (Means-sub c.field k.field (to_Means s) (to_Means t))

  div2-IsElement : {v : Fe} → IsElement v → IsElement (div2 c.field v)
  div2-IsElement {v} s = record {
    number = s.number * half c k;
    stands = div2-Stands c k s.number v s.stands;
  }

  pub jacobian_identity-IsJacobian : IsJacobian (jacobian_identity c.field)
  unfolding jacobian_identity
  jacobian_identity-IsJacobian =
      let zero : IsElement (replicate c.field.n 0) = record {
        number = 0;
        stands = zero-Stands c.field k.field;
      } in
      record {
        element_x = zero;
        element_y = record { number = 1; stands = k.one };
        element_z = zero;
      }

  from_affine-IsJacobian :
      {x y : Fe} → IsElement x → IsElement y → IsJacobian (from_affine c.field x y)
  unfolding from_affine
  from_affine-IsJacobian s t = record {
    element_x = s;
    element_y = t;
    element_z = record { number = 1; stands = k.one };
  }

  pub double-IsJacobian : (p : PointJacobian) → IsJacobian p → IsJacobian (double c p)
  unfolding double
  double-IsJacobian p s = elim (Bool-cases (at_infinity p)) [
    | inl t ↦ rw t s
    | inr t ↦
        let zz = sqr-IsElement s.element_z in
        let t1 = mul-IsElement (sub-IsElement s.element_x zz) (add-IsElement s.element_x zz) in
        let t1 = add-IsElement t1 (div2-IsElement t1) in
        let yy = sqr-IsElement s.element_y in
        let y2 = mul-IsElement s.element_x yy in
        let x3 = sub-IsElement (sqr-IsElement t1) (add-IsElement y2 y2) in
        rw t (record {
          element_x = x3;
          element_y = sub-IsElement (mul-IsElement t1 (sub-IsElement y2 x3)) (sqr-IsElement yy);
          element_z = mul-IsElement s.element_y s.element_z;
        })
  ]

  chord-IsJacobian :
      {h r u s z : Fe}
      → IsElement h
      → IsElement r
      → IsElement u
      → IsElement s
      → IsElement z
      → IsJacobian (chord c h r u s z)
  unfolding chord
  chord-IsJacobian th tr tu ts tz =
      let hh = sqr-IsElement th in
      let hhh = mul-IsElement th hh in
      let v = mul-IsElement tu hh in
      let x3 = sub-IsElement (sub-IsElement (sqr-IsElement tr) hhh) (add-IsElement v v) in
      record {
        element_x = x3;
        element_y = sub-IsElement (mul-IsElement tr (sub-IsElement v x3)) (mul-IsElement ts hhh);
        element_z = tz;
      }

  add_or_double-IsJacobian :
      (p : PointJacobian) {h r u s z : Fe}
      → IsJacobian p
      → IsElement h
      → IsElement r
      → IsElement u
      → IsElement s
      → IsElement z
      → IsJacobian (add_or_double c p h r u s z)
  unfolding add_or_double
  add_or_double-IsJacobian p {h} {r} {u} {s} {z} tp th tr tu ts tz = elim (Bool-cases (is_zero h)) [
    | inl e ↦ elim (Bool-cases (is_zero r)) [
      | inl e' ↦ rw (e, e') (double-IsJacobian p tp)
      | inr e' ↦ rw (e, e') jacobian_identity-IsJacobian
    ]
    | inr e ↦ rw e (chord-IsJacobian th tr tu ts tz)
  ]

  pub add_mixed-IsJacobian :
      (p : PointJacobian) {x2 y2 : Fe}
      → IsJacobian p
      → IsElement x2
      → IsElement y2
      → IsJacobian (add_mixed c p x2 y2)
  unfolding add_mixed
  add_mixed-IsJacobian p {x2} {y2} s tx ty =
      let zz = sqr-IsElement s.element_z in
      let h = sub-IsElement (mul-IsElement tx zz) s.element_x in
      let r = sub-IsElement (mul-IsElement ty (mul-IsElement s.element_z zz)) s.element_y in
      elim (Bool-cases (at_infinity p)) [
        | inl t ↦ rw t (from_affine-IsJacobian tx ty)
        | inr t ↦
            rw t (
              add_or_double-IsJacobian p s h r s.element_x s.element_y
                (mul-IsElement s.element_z h))
      ]
