-- ===== src/Point/Sum.antt =====
-- The complete addition of src/point.rs as formulas on numbers.
use mcu_crypto_asm.Base.{
  ℕ, ◌+◌, ◌*◌, ◌%◌, ◌≡◌, refl, ap, sym, ◌∙◌, arith, Cong, Cong-mul, Cong-add, true,
}
use mcu_crypto_asm.Bignum.Value.{value}
use mcu_crypto_asm.Curve.{CurveParams}
use mcu_crypto_asm.Fe.{Fe, mul, add}
use mcu_crypto_asm.Fe.Laws.{Stands}
use mcu_crypto_asm.Point.{Point, complete, add_points, add_affine, identity, is_identity}
use mcu_crypto_asm.Point.Domain.{IsCurve, zero-Stands, is_zero-Stands, Stands-eq_iff}
use mcu_crypto_asm.Point.Signed.{
  Means, of_Stands, to_Stands, Means-mul, Means-add, Means-sub, Means-eq, Means-eq_iff,
}

module _ (c : CurveParams) (k : IsCurve c) where
  abbrev prime : ℕ
  prime = value c.field.p

  -- The element is the difference of the two numbers, modulo the prime of the curve.
  abbrev Is : ℕ → ℕ → Fe → Type 0
  Is a b v = Means c.field k.field a b v

  -- The point's coordinates.
  pub record IsAt (x y z : ℕ) (p : Point) : Type 0 where
    pub at_x : Stands c.field k.field x p.x
    pub at_y : Stands c.field k.field y p.y
    pub at_z : Stands c.field k.field z p.z

  -- The complete formulas for `a = -3` of Renes, Costello and Batina, in the six products
  -- `X1 X2`, `Y1 Y2`, `Z1 Z2`, `X1 Y2 + X2 Y1`, `Y1 Z2 + Y2 Z1` and `X1 Z2 + X2 Z1`:
  -- X = xy (yy + 3 xz - 3 b zz) - yz (3 b xz - 3 xx - 9 zz)
  -- Y = (3 xx - 3 zz) (3 b xz - 3 xx - 9 zz) + (yy - 3 xz + 3 b zz) (yy + 3 xz - 3 b zz)
  -- Z = yz (yy - 3 xz + 3 b zz) + xy (3 xx - 3 zz)
  pub record IsSum (xx yy zz xy yz xz : ℕ) (p : Point) : Type 0 where
    pub sum_x :
        Is
          (xy * (yy + 3 * xz) + yz * (3 * xx + 9 * zz))
          (3 * k.b * (xy * zz) + 3 * k.b * (yz * xz))
          p.x
    pub sum_y :
        Is
          (9 * k.b * (xx * xz) + 3 * zz * (3 * xx + 9 * zz) + yy * yy + 18 * k.b * (xz * zz))
          (3 * xx * (3 * xx + 9 * zz)
            + 9 * k.b * (zz * xz)
            + 9 * (xz * xz)
            + 9 * (k.b * k.b) * (zz * zz))
          p.y
    pub sum_z : Is (yz * (yy + 3 * k.b * zz) + 3 * (xy * xx)) (3 * (yz * xz) + 3 * (xy * zz)) p.z

  complete-IsSum :
      (xx yy zz xy yz xz : ℕ) (t0 t1 t2 sum_xy sum_yz sum_xz : Fe)
      → Is xx 0 t0
      → Is yy 0 t1
      → Is zz 0 t2
      → Is (xx + yy + xy) 0 sum_xy
      → Is (yy + zz + yz) 0 sum_yz
      → Is (xx + zz + xz) 0 sum_xz
      → IsSum xx yy zz xy yz xz (complete c t0 t1 t2 sum_xy sum_yz sum_xz)
  unfolding complete
  complete-IsSum xx yy zz xy yz xz t0 t1 t2 sum_xy sum_yz sum_xz h0 h1 h2 hxy hyz hxz =
      let f = c.field in
      let h = k.field in
      let b = k.b in
      let hb = of_Stands f h b k.b_stands in
      let t3 = Means-eq f h xy 0 (omega arith) (Means-sub f h hxy (Means-add f h h0 h1)) in
      let t4 = Means-eq f h yz 0 (omega arith) (Means-sub f h hyz (Means-add f h h1 h2)) in
      let y3 = Means-eq f h xz 0 (omega arith) (Means-sub f h hxz (Means-add f h h0 h2)) in
      let z3 = Means-eq f h (b * zz) 0 (omega arith) (Means-mul f h hb h2) in
      let x3 = Means-eq f h xz (b * zz) (omega arith) (Means-sub f h y3 z3) in
      let x3 =
        Means-eq f h (3 * xz) (3 * (b * zz)) (omega arith)
          (Means-add f h x3 (Means-add f h x3 x3)) in
      let z3 = Means-eq f h (yy + 3 * (b * zz)) (3 * xz) (omega arith) (Means-sub f h h1 x3) in
      let x3 = Means-eq f h (yy + 3 * xz) (3 * (b * zz)) (omega arith) (Means-add f h h1 x3) in
      let y3 = Means-eq f h (b * xz) 0 (omega arith) (Means-mul f h hb y3) in
      let t2 = Means-eq f h (3 * zz) 0 (omega arith) (Means-add f h (Means-add f h h2 h2) h2) in
      let y3 =
        Means-eq f h (b * xz) (xx + 3 * zz) (omega arith)
          (Means-sub f h (Means-sub f h y3 t2) h0) in
      let y3 =
        Means-eq f h (3 * (b * xz)) (3 * xx + 9 * zz) (omega arith)
          (Means-add f h (Means-add f h y3 y3) y3) in
      let t0 =
        Means-eq f h (3 * xx) (3 * zz) (omega arith)
          (Means-sub f h (Means-add f h (Means-add f h h0 h0) h0) t2) in
      record {
        sum_x =
            Means-eq f h _ _ (omega arith)
              (Means-sub f h (Means-mul f h t3 x3) (Means-mul f h t4 y3));
        sum_y =
            Means-eq f h _ _ (omega arith)
              (Means-add f h (Means-mul f h x3 z3) (Means-mul f h t0 y3));
        sum_z =
            Means-eq f h _ _ (omega arith)
              (Means-add f h (Means-mul f h t4 z3) (Means-mul f h t3 t0));
      }

  is : (x : ℕ) {v : Fe} → Stands c.field k.field x v → Is x 0 v
  is x s = of_Stands c.field k.field x s

  -- The product of two sums less two of its products.
  sum_product :
      (u v s t : ℕ) (a b d e : Fe)
      → Is u 0 a
      → Is v 0 b
      → Is s 0 d
      → Is t 0 e
      → Is (u * s + v * t + (u * t + s * v)) 0 (mul c.field (add c.field a b) (add c.field d e))
  sum_product u v s t a b d e hu hv hs ht =
      let f = c.field in
      let h = k.field in
      Means-eq f h _ 0 (omega arith) (Means-mul f h (Means-add f h hu hv) (Means-add f h hs ht))

  -- On a curve, of any two points whose coordinates stand for numbers, equal, opposite and
  -- identity included, `add` computes the complete formulas of Renes, Costello and Batina for `a
  -- = -3`, modulo the prime.
  pub add_points-IsSum :
      (x1 y1 z1 x2 y2 z2 : ℕ) (p q : Point)
      → IsAt x1 y1 z1 p
      → IsAt x2 y2 z2 q
      → IsSum
          (x1 * x2)
          (y1 * y2)
          (z1 * z2)
          (x1 * y2 + x2 * y1)
          (y1 * z2 + y2 * z1)
          (x1 * z2 + x2 * z1)
          (add_points c p q)
  unfolding add_points
  add_points-IsSum x1 y1 z1 x2 y2 z2 p q s t =
      let f = c.field in
      let h = k.field in
      let product : (u v : ℕ) (a b : Fe) → Is u 0 a → Is v 0 b → Is (u * v) 0 (mul f a b) =
        λ u v a b hu hv. Means-eq f h (u * v) 0 (omega arith) (Means-mul f h hu hv) in
      let a1 = is x1 s.at_x in
      let b1 = is y1 s.at_y in
      let c1 = is z1 s.at_z in
      let a2 = is x2 t.at_x in
      let b2 = is y2 t.at_y in
      let c2 = is z2 t.at_z in
      complete-IsSum (x1 * x2) (y1 * y2) (z1 * z2) (x1 * y2 + x2 * y1) (y1 * z2 + y2 * z1)
        (x1 * z2 + x2 * z1) _ _ _ _ _ _ (product x1 x2 p.x q.x a1 a2) (product y1 y2 p.y q.y b1 b2)
        (product z1 z2 p.z q.z c1 c2) (sum_product x1 y1 x2 y2 p.x p.y q.x q.y a1 b1 a2 b2)
        (sum_product y1 z1 y2 z2 p.y p.z q.y q.z b1 c1 b2 c2)
        (sum_product x1 z1 x2 z2 p.x p.z q.x q.z a1 c1 a2 c2)

  point_eq : {p q : Point} → p.x ≡ q.x → p.y ≡ q.y → p.z ≡ q.z → p ≡ q
  point_eq {p} {q} ex ey ez = λ i. record { x = ex i; y = ey i; z = ez i }

  -- Sums of the same six products are the same point.
  IsSum-unique :
      (xx yy zz xy yz xz : ℕ) {p q : Point}
      → IsSum xx yy zz xy yz xz p
      → IsSum xx yy zz xy yz xz q
      → p ≡ q
  IsSum-unique xx yy zz xy yz xz s t =
      let f = c.field in
      let h = k.field in
      point_eq ((Means-eq_iff f h s.sum_x t.sum_x).1 refl)
        ((Means-eq_iff f h s.sum_y t.sum_y).1 refl) ((Means-eq_iff f h s.sum_z t.sum_z).1 refl)

  -- The order of the points makes no difference, to the limb.
  pub add_points_comm :
      (x1 y1 z1 x2 y2 z2 : ℕ) (p q : Point)
      → IsAt x1 y1 z1 p
      → IsAt x2 y2 z2 q
      → add_points c p q ≡ add_points c q p
  add_points_comm x1 y1 z1 x2 y2 z2 p q s t =
      let there = add_points-IsSum x1 y1 z1 x2 y2 z2 p q s t in
      let back = add_points-IsSum x2 y2 z2 x1 y1 z1 q p t s in
      let e0 : x2 * x1 ≡ x1 * x2 = omega arith in
      let e1 : y2 * y1 ≡ y1 * y2 = omega arith in
      let e2 : z2 * z1 ≡ z1 * z2 = omega arith in
      let e3 : x2 * y1 + x1 * y2 ≡ x1 * y2 + x2 * y1 = omega arith in
      let e4 : y2 * z1 + y1 * z2 ≡ y1 * z2 + y2 * z1 = omega arith in
      let e5 : x2 * z1 + x1 * z2 ≡ x1 * z2 + x2 * z1 = omega arith in
      IsSum-unique _ _ _ _ _ _ there (rw (← e0, ← e1, ← e2, ← e3, ← e4, ← e5) back)

  -- On a curve, `add` of any point and `(0 : 1 : 0)` gives the point with all three coordinates
  -- multiplied by its `Y`.
  pub add_points-identity :
      (x y z : ℕ) (p : Point)
      → IsAt x y z p
      → IsAt (y * x) (y * y) (y * z) (add_points c p (identity c.field))
  unfolding identity
  add_points-identity x y z p s =
      let zero = zero-Stands c.field k.field in
      let out =
        add_points-IsSum x y z 0 1 0 p (identity c.field) s
          (record { at_x = zero; at_y = k.one; at_z = zero }) in
      let f = c.field in
      let h = k.field in
      record {
        at_x = to_Stands f h (Means-eq f h (y * x) 0 (omega arith) out.sum_x);
        at_y = to_Stands f h (Means-eq f h (y * y) 0 (omega arith) out.sum_y);
        at_z = to_Stands f h (Means-eq f h (y * z) 0 (omega arith) out.sum_z);
      }

  -- On a curve, `add` of two points with the same `X` and `Z` and with `Y` that add up to zero
  -- modulo the prime gives the identity, as `is_identity` tells.
  pub add_points-opposite :
      (x y z y' : ℕ) (p q : Point)
      → IsAt x y z p
      → IsAt x y' z q
      → Cong prime (y + y') 0
      → is_identity (add_points c p q) ≡ true
  unfolding is_identity
  add_points-opposite x y z y' p q s t e =
      let m = (add_points-IsSum x y z x y' z p q s t).sum_z in
      let n = m.number in
      let up = vanishes (z * (y * y' + 3 * k.b * (z * z)) + 3 * (x * (x * x))) in
      let down = vanishes (3 * (z * (x * z + x * z)) + 3 * (x * (z * z))) in
      (is_zero-Stands c.field k.field n (add_points c p q).z m.stands).1 (
        ap (λ t. t % prime) (omega arith)
        ∙ Cong-add prime n n 0 _ refl (sym down)
        ∙ ap (λ t. t % prime) (omega arith)
        ∙ m.same
        ∙ ap (λ t. t % prime) (omega arith)
        ∙ up)
    where
      vanishes : (w : ℕ) → Cong prime ((y + y') * w) 0
      vanishes w = Cong-mul prime (y + y') 0 w w e refl ∙ ap (λ t. t % prime) (omega arith)

  -- On a curve, with the Montgomery one for `Z2`, `add_affine` gives the same limbs as `add`.
  pub add_affine-add_points :
      (x1 y1 z1 x2 y2 : ℕ) (p : Point) (qx qy : Fe)
      → IsAt x1 y1 z1 p
      → Stands c.field k.field x2 qx
      → Stands c.field k.field y2 qy
      → add_affine c p qx qy c.field.one
        ≡ add_points c p (record { x = qx; y = qy; z = c.field.one })
  unfolding add_affine add_points
  add_affine-add_points x1 y1 z1 x2 y2 p qx qy s hx hy =
      let f = c.field in
      let same : mul f p.z f.one ≡ p.z =
        (Stands-eq_iff f k.field (z1 * 1) z1 (mul f p.z f.one) p.z
            (to_Stands f k.field (
              Means-eq f k.field (z1 * 1) 0 (omega arith)
                (Means-mul f k.field (is z1 s.at_z) (is 1 k.one))))
            s.at_z).1
          (ap (λ t. t % prime) (omega arith)) in
      rw same refl
