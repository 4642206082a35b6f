-- ===== src/Point.antt =====
-- src/point.rs: points of P-256 and P-384 in projective coordinates, without assembly: the complete
-- addition, the test for the curve, and the decoding of SEC1 octet strings. The errors are those of
-- src/ecdh.rs.
pub mod Domain
pub mod Signed
pub mod Sum
pub mod Affine
pub mod Parity
pub mod Decompress
pub mod Decode
pub mod Jacobian
use mcu_crypto_asm.Base.{
  ℕ, ◌+◌, ◌*◌, ◌/◌, ◌%◌, List, Bool, true, false, not, ◌||◌, ◌&&◌, Option, none, some,
}
use mcu_crypto_asm.Base.{◌==◌, if◌then◌else◌, get_or, replicate, length, take, drop}
use mcu_crypto_asm.Bytes.{be_limbs}
use mcu_crypto_asm.Bignum.{overflowing_sub_loop}
use mcu_crypto_asm.Curve.{Params, CurveParams}
use mcu_crypto_asm.Fe.{Fe, from_int, to_int, mul, sqr, add, sub, invert, sqrt, is_zero, ct_eq}

pub data Error : Type 0 where
  bad_length bad_scalar bad_point : Error

pub data Result {ℓ} (A : Type ℓ) : Type ℓ where
  ok : A → Result A
  err : Error → Result A

-- `(X : Y : Z)`, each in Montgomery form
pub record Point : Type 0 where
  pub x : Fe
  pub y : Fe
  pub z : Fe

pub identity : Params → Point
identity f = record { x = replicate f.n 0; y = f.one; z = replicate f.n 0 }

unfoldable pub generator : CurveParams → Point
generator c = record { x = c.gx_mont; y = c.gy_mont; z = c.field.one }

pub is_identity : Point → Bool
is_identity p = is_zero p.z

-- The formulas after the products that involve `Z2`: from `x1 * x2`, `y1 * y2`, `z1 * z2` and the
-- products of the three sums.
pub complete : CurveParams → (t0 t1 t2 sum_xy sum_yz sum_xz : Fe) → Point
complete c t0 t1 t2 sum_xy sum_yz sum_xz =
    let f = c.field in
    let b = c.b_mont in
    let t3 = sub f sum_xy (add f t0 t1) in
    let t4 = sub f sum_yz (add f t1 t2) in
    let y3 = sub f sum_xz (add f t0 t2) in
    let z3 = mul f b t2 in
    let x3 = sub f y3 z3 in
    let z3 = add f x3 x3 in
    let x3 = add f x3 z3 in
    let z3 = sub f t1 x3 in
    let x3 = add f t1 x3 in
    let y3 = mul f b y3 in
    let t1 = add f t2 t2 in
    let t2 = add f t1 t2 in
    let y3 = sub f y3 t2 in
    let y3 = sub f y3 t0 in
    let t1 = add f y3 y3 in
    let y3 = add f t1 y3 in
    let t1 = add f t0 t0 in
    let t0 = add f t1 t0 in
    let t0 = sub f t0 t2 in
    let t1 = mul f t4 y3 in
    let t2 = mul f t0 y3 in
    let y3 = add f (mul f x3 z3) t2 in
    let x3 = sub f (mul f t3 x3) t1 in
    let z3 = add f (mul f t4 z3) (mul f t3 t0) in record { x = x3; y = y3; z = z3 }

pub add_points : CurveParams → Point → Point → Point
add_points c p q =
    let f = c.field in
    complete c (mul f p.x q.x) (mul f p.y q.y) (mul f p.z q.z)
      (mul f (add f p.x p.y) (add f q.x q.y)) (mul f (add f p.y p.z) (add f q.y q.z))
      (mul f (add f p.x p.z) (add f q.x q.z))

-- The same with an affine second point, whose `Z` is the Montgomery one that is passed.
pub add_affine : CurveParams → Point → (x2 y2 one : Fe) → Point
add_affine c p x2 y2 one =
    let f = c.field in
    complete c (mul f p.x x2) (mul f p.y y2) p.z (mul f (add f p.x p.y) (add f x2 y2))
      (mul f (add f p.y p.z) (add f y2 one)) (mul f (add f p.x p.z) (add f x2 one))

pub to_affine : Params → Point → Option (Fe × Fe)
to_affine f p =
    if is_identity p
    then none
    else let zinv = invert f p.z in some (to_int f (mul f p.x zinv), to_int f (mul f p.y zinv))

-- `x^3 - 3x + b`
pub curve_rhs : CurveParams → Fe → Fe
curve_rhs c x =
    let f = c.field in let x3 = mul f (sqr f x) x in add f (sub f x3 (add f (add f x x) x)) c.b_mont

-- The comparison of `is_on_curve`, with the affine coordinates as integers.
pub satisfies : CurveParams → Fe × Fe → Bool
satisfies c (xi, yi) =
    let f = c.field in ct_eq (sqr f (from_int f yi)) (curve_rhs c (from_int f xi))

pub is_on_curve : CurveParams → Point → Bool
is_on_curve c p =
    if is_identity p
    then true
    else elim (to_affine c.field p) [ some xy ↦ satisfies c xy | none ↦ true ]

-- Is the number of the limbs not below the field's prime? The borrow of the difference says.
abbrev pub not_below : Params → List ℕ → Bool
not_below f limbs = (overflowing_sub_loop limbs f.p 0).1 == 0

pub odd_limbs : List ℕ → Bool
odd_limbs limbs = get_or limbs 0 0 % 2 == 1

-- The parity of `y` is made the one that is asked for.
pub with_parity : Params → Bool → Fe → Fe
with_parity f y_is_odd y =
    let cur_odd = odd_limbs (to_int f y) in
    if (cur_odd && y_is_odd) || (not cur_odd && not y_is_odd) then y else sub f (replicate f.n 0) y

pub decompress : CurveParams → List ℕ → Bool → Option Point
decompress c x_limbs y_is_odd =
    let f = c.field in
    if not_below f x_limbs
    then none
    else let x = from_int f x_limbs in
      elim (sqrt f (curve_rhs c x)) [
        | some y ↦ some (record { x = x; y = with_parity f y_is_odd y; z = f.one })
        | none ↦ none
      ]

-- Tag 4: both coordinates.
pub decode_full : CurveParams → List ℕ → Result Point
decode_full c bytes =
    let f = c.field in
    let xi = be_limbs (take (4 * f.n) (drop 1 bytes)) in
    let yi = be_limbs (drop (1 + 4 * f.n) bytes) in
    let p : Point = record { x = from_int f xi; y = from_int f yi; z = f.one } in
    if not (get_or bytes 0 0 == 4)
    then err bad_point
    else if not_below f xi || not_below f yi
    then err bad_point
    else if not (is_on_curve c p)
    then err bad_point
    else ok p

-- Tags 2 and 3: one coordinate and the parity of the other.
pub decode_compressed : CurveParams → List ℕ → Result Point
decode_compressed c bytes =
    let tag = get_or bytes 0 0 in
    if not (tag == 2) && not (tag == 3)
    then err bad_point
    else elim (decompress c (be_limbs (drop 1 bytes)) (tag == 3)) [
      | some p ↦ ok p
      | none ↦ err bad_point
    ]

pub decode : CurveParams → List ℕ → Result Point
decode c bytes =
    let n = c.field.n in
    if length bytes == 1 + 8 * n
    then decode_full c bytes
    else if length bytes == 1 + 4 * n
    then decode_compressed c bytes
    else err bad_length
