-- ===== src/Curve/Constants.antt =====
-- src/params.rs, and the `CurveParams` that src/lib.rs builds of it for each curve.
use mcu_crypto_asm.Base.{ℕ, List, [], ◌∷◌}
use mcu_crypto_asm.Curve.{CurveParams}

abbrev pub p256_p : List ℕ
p256_p =
    0xffffffff ∷ 0xffffffff ∷ 0xffffffff ∷ 0x00000000 ∷ 0x00000000 ∷ 0x00000000 ∷ 0x00000001
    ∷ 0xffffffff ∷ []

abbrev pub p256_order : List ℕ
p256_order =
    0xfc632551 ∷ 0xf3b9cac2 ∷ 0xa7179e84 ∷ 0xbce6faad ∷ 0xffffffff ∷ 0xffffffff ∷ 0x00000000
    ∷ 0xffffffff ∷ []

abbrev pub p256_order_r_mont : List ℕ
p256_order_r_mont =
    0x039cdaaf ∷ 0x0c46353d ∷ 0x58e8617b ∷ 0x43190552 ∷ 0x00000000 ∷ 0x00000000 ∷ 0xffffffff
    ∷ 0x00000000 ∷ []

abbrev pub p256_order_r2_mont : List ℕ
p256_order_r2_mont =
    0xbe79eea2 ∷ 0x83244c95 ∷ 0x49bd6fa6 ∷ 0x4699799c ∷ 0x2b6bec59 ∷ 0x2845b239 ∷ 0xf3d95620
    ∷ 0x66e12d94 ∷ []

abbrev pub p256_r_mont : List ℕ
p256_r_mont =
    0x00000001 ∷ 0x00000000 ∷ 0x00000000 ∷ 0xffffffff ∷ 0xffffffff ∷ 0xffffffff ∷ 0xfffffffe
    ∷ 0x00000000 ∷ []

abbrev pub p256_r2_mont : List ℕ
p256_r2_mont =
    0x00000003 ∷ 0x00000000 ∷ 0xffffffff ∷ 0xfffffffb ∷ 0xfffffffe ∷ 0xffffffff ∷ 0xfffffffd
    ∷ 0x00000004 ∷ []

abbrev pub p256_b_mont : List ℕ
p256_b_mont =
    0x29c4bddf ∷ 0xd89cdf62 ∷ 0x78843090 ∷ 0xacf005cd ∷ 0xf7212ed6 ∷ 0xe5a220ab ∷ 0x04874834
    ∷ 0xdc30061d ∷ []

abbrev pub p256_gx_mont : List ℕ
p256_gx_mont =
    0x18a9143c ∷ 0x79e730d4 ∷ 0x5fedb601 ∷ 0x75ba95fc ∷ 0x77622510 ∷ 0x79fb732b ∷ 0xa53755c6
    ∷ 0x18905f76 ∷ []

abbrev pub p256_gy_mont : List ℕ
p256_gy_mont =
    0xce95560a ∷ 0xddf25357 ∷ 0xba19e45c ∷ 0x8b4ab8e4 ∷ 0xdd21f325 ∷ 0xd2e88688 ∷ 0x25885d85
    ∷ 0x8571ff18 ∷ []

abbrev pub p256 : CurveParams
p256 = record {
  field = record { n = 8; p = p256_p; n0inv = 1; r2 = p256_r2_mont; one = p256_r_mont };
  b_mont = p256_b_mont;
  gx_mont = p256_gx_mont;
  gy_mont = p256_gy_mont;
  order = p256_order;
  order_n0inv = 0xee00bc4f;
  order_r2 = p256_order_r2_mont;
  order_r = p256_order_r_mont;
}

abbrev pub p384_p : List ℕ
p384_p =
    0xffffffff ∷ 0x00000000 ∷ 0x00000000 ∷ 0xffffffff ∷ 0xfffffffe ∷ 0xffffffff ∷ 0xffffffff
    ∷ 0xffffffff ∷ 0xffffffff ∷ 0xffffffff ∷ 0xffffffff ∷ 0xffffffff ∷ []

abbrev pub p384_order : List ℕ
p384_order =
    0xccc52973 ∷ 0xecec196a ∷ 0x48b0a77a ∷ 0x581a0db2 ∷ 0xf4372ddf ∷ 0xc7634d81 ∷ 0xffffffff
    ∷ 0xffffffff ∷ 0xffffffff ∷ 0xffffffff ∷ 0xffffffff ∷ 0xffffffff ∷ []

abbrev pub p384_order_r_mont : List ℕ
p384_order_r_mont =
    0x333ad68d ∷ 0x1313e695 ∷ 0xb74f5885 ∷ 0xa7e5f24d ∷ 0x0bc8d220 ∷ 0x389cb27e ∷ 0x00000000
    ∷ 0x00000000 ∷ 0x00000000 ∷ 0x00000000 ∷ 0x00000000 ∷ 0x00000000 ∷ []

abbrev pub p384_order_r2_mont : List ℕ
p384_order_r2_mont =
    0x19b409a9 ∷ 0x2d319b24 ∷ 0xdf1aa419 ∷ 0xff3d81e5 ∷ 0xfcb82947 ∷ 0xbc3e483a ∷ 0x4aab1cc5
    ∷ 0xd40d4917 ∷ 0x28266895 ∷ 0x3fb05b7a ∷ 0x2b39bf21 ∷ 0x0c84ee01 ∷ []

abbrev pub p384_r_mont : List ℕ
p384_r_mont =
    0x00000001 ∷ 0xffffffff ∷ 0xffffffff ∷ 0x00000000 ∷ 0x00000001 ∷ 0x00000000 ∷ 0x00000000
    ∷ 0x00000000 ∷ 0x00000000 ∷ 0x00000000 ∷ 0x00000000 ∷ 0x00000000 ∷ []

abbrev pub p384_r2_mont : List ℕ
p384_r2_mont =
    0x00000001 ∷ 0xfffffffe ∷ 0x00000000 ∷ 0x00000002 ∷ 0x00000000 ∷ 0xfffffffe ∷ 0x00000000
    ∷ 0x00000002 ∷ 0x00000001 ∷ 0x00000000 ∷ 0x00000000 ∷ 0x00000000 ∷ []

abbrev pub p384_b_mont : List ℕ
p384_b_mont =
    0x9d412dcc ∷ 0x08118871 ∷ 0x7a4c32ec ∷ 0xf729add8 ∷ 0x1920022e ∷ 0x77f2209b ∷ 0x94938ae2
    ∷ 0xe3374bee ∷ 0x1f022094 ∷ 0xb62b21f4 ∷ 0x604fbff9 ∷ 0xcd08114b ∷ []

abbrev pub p384_gx_mont : List ℕ
p384_gx_mont =
    0x49c0b528 ∷ 0x3dd07566 ∷ 0xa0d6ce38 ∷ 0x20e378e2 ∷ 0x541b4d6e ∷ 0x879c3afc ∷ 0x59a30eff
    ∷ 0x64548684 ∷ 0x614ede2b ∷ 0x812ff723 ∷ 0x299e1513 ∷ 0x4d3aadc2 ∷ []

abbrev pub p384_gy_mont : List ℕ
p384_gy_mont =
    0x4b03a4fe ∷ 0x23043dad ∷ 0x7bb4a9ac ∷ 0xa1bfa8bf ∷ 0x2e83b050 ∷ 0x8bade756 ∷ 0x68f4ffd9
    ∷ 0xc6c35219 ∷ 0x3969a840 ∷ 0xdd800226 ∷ 0x5a15c5e9 ∷ 0x2b78abc2 ∷ []

abbrev pub p384 : CurveParams
p384 = record {
  field = record { n = 12; p = p384_p; n0inv = 1; r2 = p384_r2_mont; one = p384_r_mont };
  b_mont = p384_b_mont;
  gx_mont = p384_gx_mont;
  gy_mont = p384_gy_mont;
  order = p384_order;
  order_n0inv = 0xe88fdc45;
  order_r2 = p384_order_r2_mont;
  order_r = p384_order_r_mont;
}
