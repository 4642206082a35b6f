-- ===== src/Examples/Jacobian.antt =====
-- The theorems on Jacobian points, at the base point of P-256 and its double.
use mcu_crypto_asm.Bignum.Value.{value}
use mcu_crypto_asm.Base.{ℕ, zero, suc, All, ◌-◌, ◌^◌, ◌≡◌, refl, List, [], ◌∷◌, arith}
use mcu_crypto_asm.Curve.Constants.{p256}
use mcu_crypto_asm.Fe.{Fe}
use mcu_crypto_asm.Fe.Laws.{Stands, p256-IsField}
use mcu_crypto_asm.Point.{generator}
use mcu_crypto_asm.Point.Domain.{p256-IsCurve}
use mcu_crypto_asm.Point.Jacobian.{
  PointJacobian, double, add_mixed, add_jacobian, from_projective, to_projective,
  jacobian_to_affine,
}
use mcu_crypto_asm.Point.Jacobian.Double.{IsPlaced, IsDoubled, double-IsDoubled}
use mcu_crypto_asm.Point.Jacobian.Add.{IsMixed, IsAdded, add_mixed-IsMixed, add_jacobian-IsAdded}
use mcu_crypto_asm.Point.Jacobian.Convert.{
  IsScaled, IsFinite, to_projective-from_projective, jacobian_to_affine-IsFinite,
}
use mcu_crypto_asm.Point.Jacobian.Comb.{Entry, mul_base}
use mcu_crypto_asm.Point.Jacobian.Comb.Turn.{IsPair, pick_base, mul_base-pick_base}
use mcu_crypto_asm.Examples.Curves.{gx, gy, base}

abbrev start : PointJacobian
start = record { x = p256.gx_mont; y = p256.gy_mont; z = p256.field.one }

start-IsPlaced : IsPlaced p256 p256-IsCurve gx gy 1 start
start-IsPlaced = record {
  placed_x = record { size = refl; limbs = omega arith; number = refl };
  placed_y = record { size = refl; limbs = omega arith; number = refl };
  placed_z = record { size = refl; limbs = omega arith; number = refl };
}

-- The double of the base point, with `Z = 1` and with `Z = 2`.
abbrev twice_x : ℕ
twice_x = 56515219790691171413109057904011688695424810155802929973526481321309856242040

abbrev twice_y : ℕ
twice_y = 3377031843712258259223711451491452598088675519751548567112458094635497583569

abbrev twice_qx : Fe
twice_qx =
    282973773 ∷ 2231387860 ∷ 2754839165 ∷ 2859131841 ∷ 2366935257 ∷ 1931609347 ∷ 1036991035
    ∷ 4139463396 ∷ []

abbrev twice_qy : Fe
twice_qy =
    1639899557 ∷ 792086739 ∷ 3944968184 ∷ 355260363 ∷ 2449747390 ∷ 430504718 ∷ 173771323
    ∷ 2026207057 ∷ []

twice_x-Stands : Stands p256.field p256-IsField twice_x twice_qx
twice_x-Stands = record { size = refl; limbs = omega arith; number = refl }

twice_y-Stands : Stands p256.field p256-IsField twice_y twice_qy
twice_y-Stands = record { size = refl; limbs = omega arith; number = refl }

abbrev far_x : ℕ
far_x = 110268789952408436889738784666639181251613097207921405698572293976372327114209

abbrev far_y : ℕ
far_y = 27016254749698066073789691611931620784709404158012388536899664757083980668552

abbrev far : PointJacobian
far = record {
  x =
      1131895095 ∷ 335616848 ∷ 2429422070 ∷ 2846592771 ∷ 877806438 ∷ 3431470094 ∷ 4147964138
      ∷ 3672951699 ∷ [];
  y =
      234294571 ∷ 2041726619 ∷ 1494974401 ∷ 2842082908 ∷ 2418109936 ∷ 3444037748 ∷ 1390170581
      ∷ 3324754571 ∷ [];
  z = 2 ∷ 0 ∷ 0 ∷ 4294967294 ∷ 4294967295 ∷ 4294967295 ∷ 4294967293 ∷ 1 ∷ [];
}

far-IsPlaced : IsPlaced p256 p256-IsCurve far_x far_y 2 far
far-IsPlaced = record {
  placed_x = record { size = refl; limbs = omega arith; number = refl };
  placed_y = record { size = refl; limbs = omega arith; number = refl };
  placed_z = record { size = refl; limbs = omega arith; number = refl };
}

-- Half of `3 (gx^2 - 1)`.
abbrev slope : ℕ
slope = 45885159441169923373474508823252943948053541774443551908407298424116579721041

double-IsDoubled_example : IsDoubled p256 p256-IsCurve gx gy 1 slope start (double p256 start)
double-IsDoubled_example =
    double-IsDoubled p256 p256-IsCurve gx gy 1 slope start start-IsPlaced refl

abbrev mixed_h : ℕ
mixed_h = 8075658496784719654056472651213774492661860629761181977682400604227451606754

abbrev mixed_r : ℕ
mixed_r = 83034870097318711223336030481311144171563712262056847690768891149934181032411

add_mixed-IsMixed_example :
    IsMixed p256 p256-IsCurve gx gy 1 mixed_h mixed_r start twice_qx twice_qy
      (add_mixed p256 start twice_qx twice_qy)
add_mixed-IsMixed_example =
    add_mixed-IsMixed p256 p256-IsCurve gx gy 1 twice_x twice_y mixed_h mixed_r start twice_qx
      twice_qy start-IsPlaced twice_x-Stands twice_y-Stands refl refl

abbrev far_h : ℕ
far_h = 32302633987138878616225890604855097970647442519044727910729602416909806427016

abbrev far_r : ℕ
far_r = 85318514726768445973201009103451285722078981020003210548482972655137958989533

add_jacobian-IsAdded_example :
    IsAdded p256 p256-IsCurve gx gy 1 2 far_h far_r start far (add_jacobian p256 start far)
add_jacobian-IsAdded_example =
    add_jacobian-IsAdded p256 p256-IsCurve gx gy 1 far_x far_y 2 far_h far_r start far
      start-IsPlaced far-IsPlaced refl refl

to_projective-from_projective_example :
    IsScaled p256 p256-IsCurve gx gy 1
      (to_projective p256.field (from_projective p256.field (generator p256)))
to_projective-from_projective_example =
    to_projective-from_projective p256 p256-IsCurve gx gy 1 (generator p256) base

jacobian_to_affine-IsFinite_example :
    IsFinite p256 p256-IsCurve far_x far_y 2
      (2 ^ (value p256.field.p - 2))
      (jacobian_to_affine p256.field far)
jacobian_to_affine-IsFinite_example =
    jacobian_to_affine-IsFinite p256 p256-IsCurve far_x far_y 2 far far-IsPlaced

abbrev near_pair : Entry
near_pair = (p256.gx_mont, p256.gy_mont)

abbrev twice_pair : Entry
twice_pair = (twice_qx, twice_qy)

near_pair-IsPair : IsPair p256 p256-IsCurve near_pair
near_pair-IsPair = record {
  pair_x = record { number = gx; stands = start-IsPlaced.placed_x };
  pair_y = record { number = gy; stands = start-IsPlaced.placed_y };
}

twice_pair-IsPair : IsPair p256 p256-IsCurve twice_pair
twice_pair-IsPair = record {
  pair_x = record { number = twice_x; stands = twice_x-Stands };
  pair_y = record { number = twice_y; stands = twice_y-Stands };
}

-- A table of one digit.
abbrev more : ℕ → List Entry
more zero = twice_pair ∷ []
more (suc n) = near_pair ∷ more n

more-IsPair : (n : ℕ) → All (IsPair p256 p256-IsCurve) (more n)
more-IsPair zero = (twice_pair-IsPair, tt)
more-IsPair (suc n) = (near_pair-IsPair, more-IsPair n)

abbrev comb_table : List Entry
comb_table = near_pair ∷ near_pair ∷ twice_pair ∷ more 12

mul_base-pick_base_example :
    mul_base p256 (13 ∷ 1 ∷ []) comb_table 3 1 ≡ pick_base p256 (13 ∷ 1 ∷ []) comb_table 3 1
mul_base-pick_base_example =
    mul_base-pick_base p256 p256-IsCurve (13 ∷ 1 ∷ []) comb_table 3 1
      (near_pair-IsPair, (near_pair-IsPair, (twice_pair-IsPair, more-IsPair 12))) refl
