-- ===== src/Curve/Moduli.antt =====
-- What Montgomery arithmetic needs of the constants of src/params.rs.
use mcu_crypto_asm.Base.{refl, arith}
use mcu_crypto_asm.Bignum.Domain.{IsModulus}
use mcu_crypto_asm.Curve.Constants.{
  p256, p384, p256_p, p256_r2_mont, p256_order, p256_order_r2_mont, p384_p, p384_r2_mont,
  p384_order, p384_order_r2_mont,
}

pub p256_field-IsModulus : IsModulus p256_p p256_r2_mont p256.field.n0inv
p256_field-IsModulus = record {
  limbs = omega arith;
  nonempty = omega arith;
  positive = omega arith;
  inverse = refl;
  r_inv = 0xfffffffe00000003fffffffd0000000200000001fffffffe0000000300000000;
  unit = refl;
  r2_size = refl;
  r2_limbs = omega arith;
  r2_square = refl;
}

pub p256_order-IsModulus : IsModulus p256_order p256_order_r2_mont p256.order_n0inv
p256_order-IsModulus = record {
  limbs = omega arith;
  nonempty = omega arith;
  positive = omega arith;
  inverse = refl;
  r_inv = 0x60d066334905c1e907f8b6041e607725badef3e243566fafce1bc8f79c197c79;
  unit = refl;
  r2_size = refl;
  r2_limbs = omega arith;
  r2_square = refl;
}

pub p384_field-IsModulus : IsModulus p384_p p384_r2_mont p384.field.n0inv
p384_field-IsModulus = record {
  limbs = omega arith;
  nonempty = omega arith;
  positive = omega arith;
  inverse = refl;
  r_inv =
      0x14000000140000000c00000002fffffffcfffffffafffffffbfffffffdffffffebffffffd8ffffffe100000006;
  unit = refl;
  r2_size = refl;
  r2_limbs = omega arith;
  r2_square = refl;
}

pub p384_order-IsModulus : IsModulus p384_order p384_order_r2_mont p384.order_n0inv
p384_order-IsModulus = record {
  limbs = omega arith;
  nonempty = omega arith;
  positive = omega arith;
  inverse = refl;
  r_inv =
      0x355ca87de39dbb1fa150206ce4f194ac78d4ba5866d61787e29f9fb70a9da219d26d4aeba664edb0610ae855f2c0d911;
  unit = refl;
  r2_size = refl;
  r2_limbs = omega arith;
  r2_square = refl;
}
