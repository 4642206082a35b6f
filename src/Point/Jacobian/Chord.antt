-- ===== src/Point/Jacobian/Chord.antt =====
-- The branches that both additions in Jacobian coordinates of src/point.rs share.
use mcu_crypto_asm.Base.{ℕ, ◌+◌, ◌*◌, ◌≡◌, refl, arith, Cong}
use mcu_crypto_asm.Bignum.Value.{value}
use mcu_crypto_asm.Curve.{CurveParams}
use mcu_crypto_asm.Fe.{Fe}
use mcu_crypto_asm.Fe.Laws.{Stands}
use mcu_crypto_asm.Point.Domain.{IsCurve, is_zero-Stands, is_zero-nonzero}
use mcu_crypto_asm.Point.Signed.{
  Means, of_Stands, Means-mul, Means-sqr, Means-add, Means-sub, Means-eq, Means-product,
  Means-square,
}
use mcu_crypto_asm.Point.Jacobian.{PointJacobian, jacobian_identity, double, chord, add_or_double}

module _ (c : CurveParams) (k : IsCurve c) where
  abbrev prime : ℕ
  prime = value c.field.p

  abbrev Is : ℕ → ℕ → Fe → Type 0
  Is a b v = Means c.field k.field a b v

  -- The third point on the chord, where `u` and `s` are the first point's scaled coordinates, `h`
  -- and `r` what the second's have more, and `w` the product of the `Z`:
  -- X = r^2 - h^3 - 2 u h^2
  -- Y = r (u h^2 - X) - s h^3
  -- Z = w h
  pub record IsChord (u s w h r : ℕ) (out : PointJacobian) : Type 0 where
    pub chord_x : Is (r * r) (h * (h * h) + 2 * (u * (h * h))) out.x
    pub chord_y :
        Is (3 * (r * (u * (h * h))) + r * (h * (h * h))) (r * r * r + s * (h * (h * h))) out.y
    pub chord_z : Is (w * h) 0 out.z

  -- The sum of two points of which neither is at infinity.
  pub record IsJoined (u s w h r : ℕ) (p out : PointJacobian) : Type 0 where
    pub doubles : Cong prime h 0 → Cong prime r 0 → out ≡ double c p
    pub cancels : Cong prime h 0 → ¬ Cong prime r 0 → out ≡ jacobian_identity c.field
    pub joins : ¬ Cong prime h 0 → IsChord u s w h r out

  is : (x : ℕ) {v : Fe} → Stands c.field k.field x v → Is x 0 v
  is x s = of_Stands c.field k.field x s

  chord-IsChord :
      (u s w h r : ℕ) (hv rv uv sv z3 : Fe)
      → Is h 0 hv
      → Is r 0 rv
      → Is u 0 uv
      → Is s 0 sv
      → Is (w * h) 0 z3
      → IsChord u s w h r (chord c hv rv uv sv z3)
  unfolding chord
  chord-IsChord u s w h r hv rv uv sv z3 th tr tu ts tz =
      let f = c.field in
      let k = k.field in
      let hh = Means-square f k h th in
      let hhh = Means-product f k h (h * h) th hh in
      let v = Means-product f k u (h * h) tu hh in
      let x3 =
        Means-eq f k (r * r) (h * (h * h) + 2 * (u * (h * h))) (omega arith)
          (Means-sub f k (Means-sub f k (Means-sqr f k tr) hhh) (Means-add f k v v)) in
      record {
        chord_x = x3;
        chord_y =
            Means-eq f k _ _ (omega arith)
              (Means-sub f k (Means-mul f k tr (Means-sub f k v x3)) (Means-mul f k ts hhh));
        chord_z = tz;
      }

  pub add_or_double-IsJoined :
      (u s w h r : ℕ) (p : PointJacobian) (hv rv uv sv z3 : Fe)
      → Stands c.field k.field h hv
      → Stands c.field k.field r rv
      → Is u 0 uv
      → Is s 0 sv
      → Is (w * h) 0 z3
      → IsJoined u s w h r p (add_or_double c p hv rv uv sv z3)
  unfolding add_or_double
  add_or_double-IsJoined u s w h r p hv rv uv sv z3 sh sr tu ts tz =
      let f = c.field in
      let same_x = (is_zero-Stands f k.field h hv sh).1 in
      let same_y = (is_zero-Stands f k.field r rv sr).1 in
      record {
        doubles = λ e e'. rw (same_x e, same_y e') refl;
        cancels = λ e n. rw (same_x e, is_zero-nonzero f k.field r rv sr n) refl;
        joins = λ n.
            rw (is_zero-nonzero f k.field h hv sh n)
              (chord-IsChord u s w h r hv rv uv sv z3 (is h sh) (is r sr) tu ts tz);
      }
