-- ===== src/Examples/Hashes.antt =====
-- The theorems on the SHA-512 family and HMAC.
use mcu_crypto_asm.Base.{ℕ, ◌≡◌, ◌≤◌, refl, List, [], ◌∷◌, take, replicate, arith}
use mcu_crypto_asm.Absorb.{joined, absorb}
use mcu_crypto_asm.Sha512.{Sha512, update, compress_block, sha512, sha384}
use mcu_crypto_asm.Sha512.Constants.{sha512_iv, sha384_iv, sha512_224_iv, sha512_256_iv}
use mcu_crypto_asm.Sha512.Stream.{IsStream, view, update-absorb}
use mcu_crypto_asm.Sha512.Core.{pad_loop, sha512_224, sha512_256, hmac_new, hmac_finalize}
use mcu_crypto_asm.Sha512.Core.Padding.{gap, pad_loop-zeros}
use mcu_crypto_asm.Sha512.Core.Digest.{hash}
use mcu_crypto_asm.Sha512.Core.Message.{digests}
use mcu_crypto_asm.Sha512.Core.Hmac.{hmac, hmac_feed, hmac_finalize-hmac}

abbrev started : Sha512
started = record { state = sha512_iv; buffer = replicate 128 7; buf_len = 113; total_len = 113 }

started-IsStream : IsStream started
started-IsStream = record { size = refl; room = omega arith }

abbrev abc : List ℕ
abc = 97 ∷ 98 ∷ 99 ∷ []

update-absorb_example :
    IsStream (update started (replicate 300 5))
    × (view (update started (replicate 300 5))
        ≡ absorb compress_block 128 sha512_iv (replicate 113 7) (replicate 300 5))
update-absorb_example = update-absorb started (replicate 300 5) started-IsStream

gap-started : gap 113 ≤ 128
unfolding gap
gap-started = omega arith

pad_loop-zeros_example :
    IsStream (pad_loop 128 started)
    × ((pad_loop 128 started).buf_len ≡ 112)
    × (view (pad_loop 128 started)
        ≡ absorb compress_block 128 sha512_iv (replicate 113 7) (replicate (gap 113) 0))
pad_loop-zeros_example = pad_loop-zeros 128 started started-IsStream gap-started

digests_example :
    (sha512 abc ≡ hash sha512_iv abc)
    × (sha384 abc ≡ take 48 (hash sha384_iv abc))
    × (sha512_224 abc ≡ take 28 (hash sha512_224_iv abc))
    × (sha512_256 abc ≡ take 32 (hash sha512_256_iv abc))
digests_example = digests abc

hmac_finalize-hmac_example :
    hmac_finalize (hmac_feed (hmac_new sha384_iv (replicate 200 9) 48) (abc ∷ abc ∷ [])) sha384_iv
    ≡ hmac sha384_iv (replicate 200 9) 48 (joined (abc ∷ abc ∷ []))
hmac_finalize-hmac_example = hmac_finalize-hmac sha384_iv (replicate 200 9) 48 (abc ∷ abc ∷ [])
