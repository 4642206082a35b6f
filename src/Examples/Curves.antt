-- ===== src/Examples/Curves.antt =====
-- The theorems on points and on Curve25519, at the base points.
use mcu_crypto_asm.Base.{
  ℕ, ◌+◌, ◌-◌, ◌*◌, ◌%◌, ◌^◌, ◌≡◌, ◌↔◌, ◌⊎◌, refl, List, [], ◌∷◌, length, Cong, true, arith,
}
use mcu_crypto_asm.Bytes.{IsBytes, le_number}
use mcu_crypto_asm.Bignum.Value.{value}
use mcu_crypto_asm.Curve.Constants.{p256}
use mcu_crypto_asm.Fe.Laws.{Stands, p256-IsField}
use mcu_crypto_asm.Point.{
  Point, generator, add_points, add_affine, is_identity, is_on_curve, decode,
}
use mcu_crypto_asm.Point.Domain.{p256-IsCurve}
use mcu_crypto_asm.Point.Sum.{
  IsAt, IsSum, add_points-IsSum, add_points-opposite, add_affine-add_points,
}
use mcu_crypto_asm.Point.Affine.{OnCurve, is_on_curve-OnCurve}
use mcu_crypto_asm.Point.Decode.{IsDecoded, decode-IsDecoded}
use mcu_crypto_asm.Curve25519.{Fe51, to_bytes, invert, scalarmult}
use mcu_crypto_asm.Curve25519.Limbs.{prime, number, IsLoose, IsCarried}
use mcu_crypto_asm.Curve25519.Field.{residue}
use mcu_crypto_asm.Curve25519.Packing.{to_bytes_lem}
use mcu_crypto_asm.Curve25519.Inverse.{invert_lem}
use mcu_crypto_asm.Curve25519.Multiple.{x25519, scalarmult-x25519}

abbrev pub gx : ℕ
gx = 0x6b17d1f2e12c4247f8bce6e563a440f277037d812deb33a0f4a13945d898c296

abbrev pub gy : ℕ
gy = 0x4fe342e2fe1a7f9b8ee7eb4a7c0f9e162bce33576b315ececbb6406837bf51f5

abbrev opposite_y : ℕ
opposite_y = value p256.field.p - gy

-- The base point and its opposite.
pub base : IsAt p256 p256-IsCurve gx gy 1 (generator p256)
unfolding generator
base = record {
  at_x = record { size = refl; limbs = omega arith; number = refl };
  at_y = record { size = refl; limbs = omega arith; number = refl };
  at_z = record { size = refl; limbs = omega arith; number = refl };
}

-- The base point with the other root.
abbrev base_opposite : Point
base_opposite = record {
  x = p256.gx_mont;
  y =
      829073909 ∷ 571321512 ∷ 1172708259 ∷ 1958037276 ∷ 584977626 ∷ 756513143 ∷ 3665273467
      ∷ 2056126694 ∷ [];
  z = p256.field.one;
}

other : IsAt p256 p256-IsCurve gx opposite_y 1 base_opposite
other = record {
  at_x = record { size = refl; limbs = omega arith; number = refl };
  at_y = record { size = refl; limbs = omega arith; number = refl };
  at_z = record { size = refl; limbs = omega arith; number = refl };
}

abbrev base_octets : List ℕ
base_octets =
    4 ∷ 107 ∷ 23 ∷ 209 ∷ 242 ∷ 225 ∷ 44 ∷ 66 ∷ 71 ∷ 248 ∷ 188 ∷ 230 ∷ 229 ∷ 99 ∷ 164 ∷ 64 ∷ 242
    ∷ 119 ∷ 3 ∷ 125 ∷ 129 ∷ 45 ∷ 235 ∷ 51 ∷ 160 ∷ 244 ∷ 161 ∷ 57 ∷ 69 ∷ 216 ∷ 152 ∷ 194 ∷ 150 ∷ 79
    ∷ 227 ∷ 66 ∷ 226 ∷ 254 ∷ 26 ∷ 127 ∷ 155 ∷ 142 ∷ 231 ∷ 235 ∷ 74 ∷ 124 ∷ 15 ∷ 158 ∷ 22 ∷ 43 ∷ 206
    ∷ 51 ∷ 87 ∷ 107 ∷ 49 ∷ 94 ∷ 206 ∷ 203 ∷ 182 ∷ 64 ∷ 104 ∷ 55 ∷ 191 ∷ 81 ∷ 245 ∷ []

base_octets-IsBytes : IsBytes base_octets
base_octets-IsBytes = ground arith

decode-IsDecoded_example : IsDecoded p256 p256-IsCurve base_octets (decode p256 base_octets)
decode-IsDecoded_example = decode-IsDecoded p256 p256-IsCurve base_octets base_octets-IsBytes

add_points-IsSum_example :
    IsSum p256 p256-IsCurve
      (gx * gx)
      (gy * gy)
      (1 * 1)
      (gx * gy + gx * gy)
      (gy * 1 + gy * 1)
      (gx * 1 + gx * 1)
      (add_points p256 (generator p256) (generator p256))
add_points-IsSum_example =
    add_points-IsSum p256 p256-IsCurve gx gy 1 gx gy 1 (generator p256) (generator p256) base base

add_points-opposite_example : is_identity (add_points p256 (generator p256) base_opposite) ≡ true
add_points-opposite_example =
    add_points-opposite p256 p256-IsCurve gx gy 1 opposite_y (generator p256) base_opposite base
      other refl

add_affine-add_points_example :
    add_affine p256 base_opposite p256.gx_mont p256.gy_mont p256.field.one
    ≡ add_points p256 base_opposite
        (record { x = p256.gx_mont; y = p256.gy_mont; z = p256.field.one })
add_affine-add_points_example =
    add_affine-add_points p256 p256-IsCurve gx opposite_y 1 gx gy base_opposite p256.gx_mont
      p256.gy_mont other base_x base_y
  where
    base_x : Stands p256.field p256-IsField gx p256.gx_mont
    base_x = record { size = refl; limbs = omega arith; number = refl }

    base_y : Stands p256.field p256-IsField gy p256.gy_mont
    base_y = record { size = refl; limbs = omega arith; number = refl }

is_on_curve-OnCurve_example : (is_on_curve p256 base_opposite ≡ true) ↔ (
    Cong (value p256.field.p) 1 0
    ⊎ OnCurve p256 p256-IsCurve
        (gx * 1 ^ (value p256.field.p - 2))
        (opposite_y * 1 ^ (value p256.field.p - 2)))
is_on_curve-OnCurve_example =
    is_on_curve-OnCurve p256 p256-IsCurve gx opposite_y 1 base_opposite other

-- The first test vector of RFC 7748.
abbrev vector_scalar : List ℕ
vector_scalar =
    165 ∷ 70 ∷ 227 ∷ 107 ∷ 240 ∷ 82 ∷ 124 ∷ 157 ∷ 59 ∷ 22 ∷ 21 ∷ 75 ∷ 130 ∷ 70 ∷ 94 ∷ 221 ∷ 98 ∷ 20
    ∷ 76 ∷ 10 ∷ 193 ∷ 252 ∷ 90 ∷ 24 ∷ 80 ∷ 106 ∷ 34 ∷ 68 ∷ 186 ∷ 68 ∷ 154 ∷ 196 ∷ []

abbrev vector_point : List ℕ
vector_point =
    230 ∷ 219 ∷ 104 ∷ 103 ∷ 88 ∷ 48 ∷ 48 ∷ 219 ∷ 53 ∷ 148 ∷ 193 ∷ 164 ∷ 36 ∷ 177 ∷ 95 ∷ 124 ∷ 114
    ∷ 102 ∷ 36 ∷ 236 ∷ 38 ∷ 179 ∷ 53 ∷ 59 ∷ 16 ∷ 169 ∷ 3 ∷ 166 ∷ 208 ∷ 171 ∷ 28 ∷ 76 ∷ []

vector_scalar-IsBytes : IsBytes vector_scalar
vector_scalar-IsBytes = ground arith

vector_point-IsBytes : IsBytes vector_point
vector_point-IsBytes = ground arith

scalarmult-x25519_example :
    IsBytes (scalarmult vector_scalar vector_point)
    × (length (scalarmult vector_scalar vector_point) ≡ 32)
    × (le_number (scalarmult vector_scalar vector_point)
        ≡ x25519 (le_number vector_scalar) (le_number vector_point))
scalarmult-x25519_example =
    scalarmult-x25519 vector_scalar vector_point refl vector_scalar-IsBytes refl
      vector_point-IsBytes

-- An element above the prime, with limbs of more than 51 bits.
abbrev wide_element : Fe51
wide_element = record {
  x0 = 2 ^ 52 + 5;
  x1 = 2 ^ 53 - 1;
  x2 = 2 ^ 51 + 7;
  x3 = 2 ^ 53 - 1;
  x4 = 2 ^ 52 + 11;
}

wide_element-IsLoose : IsLoose wide_element
wide_element-IsLoose = record {
  b0 = omega arith;
  b1 = omega arith;
  b2 = omega arith;
  b3 = omega arith;
  b4 = omega arith;
}

to_bytes_lem_example :
    IsBytes (to_bytes wide_element)
    × (length (to_bytes wide_element) ≡ 32)
    × (le_number (to_bytes wide_element) ≡ number wide_element % prime)
to_bytes_lem_example = to_bytes_lem wide_element wide_element-IsLoose

abbrev carried_element : Fe51
carried_element = record { x0 = 9; x1 = 2 ^ 51 + 3; x2 = 0; x3 = 1; x4 = 2 ^ 51 - 1 }

invert_lem_example :
    IsCarried (invert carried_element)
    × (residue (invert carried_element) ≡ residue carried_element ^ (prime - 2) % prime)
invert_lem_example = invert_lem carried_element (record {
  b0 = omega arith;
  b1 = omega arith;
  b2 = omega arith;
  b3 = omega arith;
  b4 = omega arith;
})
