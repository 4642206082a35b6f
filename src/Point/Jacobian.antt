-- ===== src/Point/Jacobian.antt =====
-- src/point.rs: points in Jacobian coordinates, which stand for `(X / Z^2, Y / Z^3)`.
pub mod Half
pub mod Double
pub mod Chord
pub mod Add
pub mod Convert
pub mod Comb
use mcu_crypto_asm.Base.{ℕ, List, Bool, true, false, Option, none, some, if◌then◌else◌, replicate}
use mcu_crypto_asm.Curve.{Params, CurveParams}
use mcu_crypto_asm.Fe.{Fe, to_int, mul, sqr, add, sub, div2, invert, is_zero}
use mcu_crypto_asm.Point
use mcu_crypto_asm.Point.{Point}

pub record PointJacobian : Type 0 where
  pub x : Fe
  pub y : Fe
  pub z : Fe

pub jacobian_identity : Params → PointJacobian
jacobian_identity f = record { x = replicate f.n 0; y = f.one; z = replicate f.n 0 }

pub at_infinity : PointJacobian → Bool
at_infinity p = is_zero p.z

pub from_affine : Params → (x y : Fe) → PointJacobian
from_affine f x y = record { x = x; y = y; z = f.one }

pub from_projective : Params → Point → PointJacobian
from_projective f p =
    if Point.is_identity p
    then jacobian_identity f
    else record { x = mul f p.x p.z; y = mul f p.y (sqr f p.z); z = p.z }

pub to_projective : Params → PointJacobian → Point
to_projective f p =
    if at_infinity p
    then Point.identity f
    else record { x = mul f p.x p.z; y = p.y; z = mul f (sqr f p.z) p.z }

pub jacobian_to_affine : Params → PointJacobian → Option (Fe × Fe)
jacobian_to_affine f p =
    if at_infinity p
    then none
    else let zinv = invert f p.z in
      let zinv2 = sqr f zinv in
      some (to_int f (mul f p.x zinv2), to_int f (mul f p.y (mul f zinv2 zinv)))

pub double : CurveParams → PointJacobian → PointJacobian
double c p =
    let f = c.field in
    let zz = sqr f p.z in
    let t1 = mul f (sub f p.x zz) (add f p.x zz) in
    let t1 = add f t1 (div2 f t1) in
    let yy = sqr f p.y in
    let y2 = mul f p.x yy in
    let x3 = sub f (sqr f t1) (add f y2 y2) in
    let y3 = sub f (mul f t1 (sub f y2 x3)) (sqr f yy) in
    if at_infinity p then p else record { x = x3; y = y3; z = mul f p.y p.z }

-- The formulas of both additions, from `h`, `r` and the scaled coordinates of the first point.
pub chord : CurveParams → (h r u1 s1 z3 : Fe) → PointJacobian
chord c h r u1 s1 z3 =
    let f = c.field in
    let hh = sqr f h in
    let hhh = mul f h hh in
    let v = mul f u1 hh in
    let x3 = sub f (sub f (sqr f r) hhh) (add f v v) in
    let y3 = sub f (mul f r (sub f v x3)) (mul f s1 hhh) in record { x = x3; y = y3; z = z3 }

-- Equal coordinates double, opposite ones cancel.
pub add_or_double : CurveParams → PointJacobian → (h r u1 s1 z3 : Fe) → PointJacobian
add_or_double c p h r u1 s1 z3 =
    if is_zero h
    then if is_zero r then double c p else jacobian_identity c.field
    else chord c h r u1 s1 z3

pub add_mixed : CurveParams → PointJacobian → (x2 y2 : Fe) → PointJacobian
add_mixed c p x2 y2 =
    let f = c.field in
    let z1z1 = sqr f p.z in
    let h = sub f (mul f x2 z1z1) p.x in
    let r = sub f (mul f y2 (mul f p.z z1z1)) p.y in
    if at_infinity p then from_affine f x2 y2 else add_or_double c p h r p.x p.y (mul f p.z h)

pub add_jacobian : CurveParams → PointJacobian → PointJacobian → PointJacobian
add_jacobian c p q =
    let f = c.field in
    let z1z1 = sqr f p.z in
    let z2z2 = sqr f q.z in
    let u1 = mul f p.x z2z2 in
    let s1 = mul f (mul f p.y q.z) z2z2 in
    let h = sub f (mul f q.x z1z1) u1 in
    let r = sub f (mul f (mul f q.y p.z) z1z1) s1 in
    if at_infinity p
    then q
    else if at_infinity q
    then p
    else add_or_double c p h r u1 s1 (mul f (mul f p.z q.z) h)
