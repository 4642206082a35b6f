-- ===== src/Examples/Streams.antt =====
-- The theorems on ChaCha20 and Poly1305.
use mcu_crypto_asm.Base.{◌%◌}
use mcu_crypto_asm.Absorb.{joined}
use mcu_crypto_asm.Poly1305.{finish}
use mcu_crypto_asm.Poly1305.Finish.{le_number, pad_number}
use mcu_crypto_asm.Poly1305.Tag.{polynomial, feed, finish-polynomial}
use mcu_crypto_asm.Poly1305.{new}
use mcu_crypto_asm.Poly1305.Clamp.{clamped_octets, IsKeyed, new-IsKeyed}
use mcu_crypto_asm.Base.{ℕ, ◌+◌, ◌-◌, ◌*◌, ◌^◌, ◌≡◌, refl, List, [], ◌∷◌, replicate, arith}
use mcu_crypto_asm.Bytes.{IsBytes}
use mcu_crypto_asm.Chacha20.{ChaCha20, apply_keystream}
use mcu_crypto_asm.Chacha20.Stream.{IsCipher, Follows, chacha20-Follows}
use mcu_crypto_asm.Poly1305.{Five, Poly1305, mul_reduce}
use mcu_crypto_asm.Poly1305.Multiply.{number, IsReduced, IsLoaded, IsKey, mul_reduce_lem}

abbrev halfway : ChaCha20
halfway = record { state = replicate 16 7; buffer = replicate 64 5; offset = 60 }

halfway-IsCipher : IsCipher halfway
halfway-IsCipher = record { size = refl; within = omega arith }

chacha20-Follows_example :
    Follows halfway (replicate 70 1) (apply_keystream halfway (replicate 70 1))
chacha20-Follows_example = chacha20-Follows halfway (replicate 70 1) halfway-IsCipher

abbrev limbs : Five
limbs = record { x0 = 0x3ffffff; x1 = 0x3ffff03; x2 = 0x3ffc0ff; x3 = 0x3f03fff; x4 = 0xfffff }

abbrev fives : List ℕ
fives = 0x13fffb0f ∷ 0x13fec4fb ∷ 0x13b13ffb ∷ 0x4ffffb ∷ []

abbrev midway : Poly1305
midway = record {
  r = limbs;
  s = fives;
  h = limbs;
  pad = replicate 4 0;
  leftover = 0;
  buffer = replicate 16 0;
}

limbs-IsReduced : IsReduced limbs
limbs-IsReduced = record {
  b0 = omega arith;
  b1 = omega arith;
  b2 = omega arith;
  b3 = omega arith;
  b4 = omega arith;
}

limbs-IsLoaded : IsLoaded limbs
limbs-IsLoaded = record {
  b0 = omega arith;
  b1 = omega arith;
  b2 = omega arith;
  b3 = omega arith;
  b4 = omega arith;
}

limbs-IsKey : IsKey limbs fives
limbs-IsKey = record {
  b0 = omega arith;
  b1 = omega arith;
  b2 = omega arith;
  b3 = omega arith;
  b4 = omega arith;
  fives = refl;
}

block-IsBytes : IsBytes (replicate 16 255)
block-IsBytes = ground arith

mul_reduce_lem_example :
    IsReduced (mul_reduce limbs limbs fives)
    × (q : ℕ) × (number (mul_reduce limbs limbs fives) + q * (2 ^ 130 - 5)
        ≡ number limbs * number limbs)
mul_reduce_lem_example = mul_reduce_lem limbs limbs fives limbs-IsLoaded limbs-IsKey

message-IsBytes : IsBytes (replicate 32 255)
message-IsBytes = ground arith

abbrev pieces : List (List ℕ)
pieces = replicate 10 200 ∷ replicate 11 9 ∷ []

pieces-IsBytes : IsBytes (joined pieces)
unfolding joined
pieces-IsBytes = (
  omega arith,
  (
    omega arith,
    (
      omega arith,
      (
        omega arith,
        (
          omega arith,
          (
            omega arith,
            (
              omega arith,
              (
                omega arith,
                (
                  omega arith,
                  (
                    omega arith,
                    (
                      omega arith,
                      (
                        omega arith,
                        (
                          omega arith,
                          (
                            omega arith,
                            (
                              omega arith,
                              (
                                omega arith,
                                (
                                  omega arith,
                                  (omega arith, (omega arith, (omega arith, (omega arith, tt)))),
                                ),
                              ),
                            ),
                          ),
                        ),
                      ),
                    ),
                  ),
                ),
              ),
            ),
          ),
        ),
      ),
    ),
  ),
)

finish-polynomial_example :
    le_number (finish (feed (new (replicate 32 77)) pieces))
    ≡ (polynomial (number (new (replicate 32 77)).r) (joined pieces) % (2 ^ 130 - 5)
        + pad_number (new (replicate 32 77)).pad)
      % 2 ^ 128
finish-polynomial_example = finish-polynomial (replicate 32 77) pieces pieces-IsBytes

-- The key of RFC 8439, 2.5.2.
abbrev rfc_key : List ℕ
rfc_key =
    0x85 ∷ 0xd6 ∷ 0xbe ∷ 0x78 ∷ 0x57 ∷ 0x55 ∷ 0x6d ∷ 0x33 ∷ 0x7f ∷ 0x44 ∷ 0x52 ∷ 0xfe ∷ 0x42 ∷ 0xd5
    ∷ 0x06 ∷ 0xa8 ∷ 0x01 ∷ 0x03 ∷ 0x80 ∷ 0x8a ∷ 0xfb ∷ 0x0d ∷ 0xb2 ∷ 0xfd ∷ 0x4a ∷ 0xbf ∷ 0xf6
    ∷ 0xaf ∷ 0x41 ∷ 0x49 ∷ 0xf5 ∷ 0x1b ∷ []

rfc_key-IsBytes : IsBytes rfc_key
rfc_key-IsBytes = ground arith

-- The clamped key that the RFC gives for it.
rfc_clamped : le_number (clamped_octets rfc_key) ≡ 0x806d5400e52447c036d555408bed685
unfolding clamped_octets
rfc_clamped = refl

new-IsKeyed_example : IsKeyed rfc_key (new rfc_key)
new-IsKeyed_example = new-IsKeyed rfc_key rfc_key-IsBytes
