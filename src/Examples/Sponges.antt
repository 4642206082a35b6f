-- ===== src/Examples/Sponges.antt =====
-- The theorems on src/keccak.rs.
use mcu_crypto_asm.Base.{◌+◌, ◌≡◌, refl, [], ◌∷◌, ◌++◌, some, length, replicate, arith, false}
use mcu_crypto_asm.Keccak.{
  KeccakSponge, absorb, finalize_and_squeeze, sha3_256, sha3_512, shake128, shake256,
}
use mcu_crypto_asm.Keccak.Feed.{IsAbsorbing, feed, absorb-feed}
use mcu_crypto_asm.Keccak.Squeeze.{IsSponge, squeeze-append}
use mcu_crypto_asm.Keccak.Digest.{output, one_shots}

abbrev sponge : KeccakSponge
sponge = record {
  state = replicate 25 3;
  rate = 136;
  domain_sep = 0x1f;
  pos = 130;
  squeezing = false;
}

absorb-feed_example :
    (absorb sponge (replicate 300 8) ≡ some (feed sponge (replicate 300 8)))
    × IsAbsorbing (feed sponge (replicate 300 8))
absorb-feed_example =
    absorb-feed sponge (replicate 300 8) (record { room = omega arith; taking = refl })

squeeze-append_example :
    (length (finalize_and_squeeze sponge 136).0 ≡ 136)
    × IsSponge (finalize_and_squeeze sponge 136).1
    × (finalize_and_squeeze sponge (136 + 5) ≡ (
      (finalize_and_squeeze sponge 136).0
          ++ (finalize_and_squeeze (finalize_and_squeeze sponge 136).1 5).0,
      (finalize_and_squeeze (finalize_and_squeeze sponge 136).1 5).1,
    ))
squeeze-append_example =
    squeeze-append sponge 136 5 (record { within = omega arith; positive = omega arith })

one_shots_example :
    (sha3_256 (1 ∷ 2 ∷ []) ≡ some (output 136 0x06 (1 ∷ 2 ∷ []) 32))
    × (sha3_512 (1 ∷ 2 ∷ []) ≡ some (output 72 0x06 (1 ∷ 2 ∷ []) 64))
    × (shake128 (1 ∷ 2 ∷ []) 200 ≡ some (output 168 0x1f (1 ∷ 2 ∷ []) 200))
    × (shake256 (1 ∷ 2 ∷ []) 200 ≡ some (output 136 0x1f (1 ∷ 2 ∷ []) 200))
one_shots_example = one_shots (1 ∷ 2 ∷ []) 200
