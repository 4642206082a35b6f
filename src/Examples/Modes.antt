-- ===== src/Examples/Modes.antt =====
-- The theorems on CCM and CMAC.
use mcu_crypto_asm.Base.{
  ℕ, ◌+◌, ◌*◌, ◌%◌, ◌^◌, ◌≡◌, refl, List, [], ◌∷◌, length, replicate, arith, true,
}
use mcu_crypto_asm.Absorb.{joined}
use mcu_crypto_asm.Aes.{AesEncrypt, ok}
use mcu_crypto_asm.Aes.Ccm.{is_tag_len, ccm_cbc_mac, ccm_encrypt, ccm_decrypt}
use mcu_crypto_asm.Aes.Ccm.Laws.{cbc, ccm_cbc_mac-cbc}
use mcu_crypto_asm.Aes.Ccm.Driver.{
  IsCcmInput, IsCcmOpened, ccm_decrypt-IsCcmOpened, ccm_decrypt-ccm_encrypt,
}
use mcu_crypto_asm.Aes.Cmac.{new, reset, finalize}
use mcu_crypto_asm.Aes.Cmac.Stream.{cmac, feed, feed-cmac}

abbrev sum_bytes : List ℕ → ℕ
sum_bytes [] = 0
sum_bytes (x ∷ b) = x + 3 * sum_bytes b

abbrev toy_cipher : AesEncrypt
toy_cipher = record {
  encrypt_block = λ b. replicate 16 ((sum_bytes b + 1) % 2 ^ 8);
  length-encrypt_block = λ b. refl;
}

abbrev nonce : List ℕ
nonce = replicate 13 4

eight : is_tag_len 8 ≡ true
unfolding is_tag_len
eight = refl

toy-IsCcmInput : IsCcmInput nonce (replicate 20 9) (replicate 40 7) 8
toy-IsCcmInput = record {
  least = omega arith;
  most = omega arith;
  tag = eight;
  fits = omega arith;
  short = omega arith;
}

ccm_cbc_mac-cbc_example :
    ccm_cbc_mac toy_cipher 2 8 nonce (replicate 20 9) (replicate 40 7)
    ≡ ok (cbc toy_cipher 2 8 nonce (replicate 20 9) (replicate 40 7))
ccm_cbc_mac-cbc_example =
    ccm_cbc_mac-cbc toy_cipher 2 8 nonce (replicate 20 9) (replicate 40 7) (omega arith)
      (omega arith)

ccm_decrypt-IsCcmOpened_example :
    IsCcmOpened toy_cipher nonce
      (replicate 20 9)
      8
      (replicate 40 7)
      (replicate 8 1)
      (ccm_decrypt toy_cipher nonce (replicate 20 9) (replicate 40 7) (replicate 8 1))
ccm_decrypt-IsCcmOpened_example =
    ccm_decrypt-IsCcmOpened toy_cipher nonce (replicate 20 9) 8 (replicate 40 7) (replicate 8 1)
      toy-IsCcmInput refl

ccm_decrypt-ccm_encrypt_example :
    (ct tag : List ℕ) × (ccm_encrypt toy_cipher nonce (replicate 20 9) (replicate 40 7) 8
      ≡ ok (ct, tag))
    × (length ct ≡ 40)
    × (length tag ≡ 8)
    × (ccm_decrypt toy_cipher nonce (replicate 20 9) ct tag
        ≡ record { outcome = ok tt; buf = replicate 40 7 })
ccm_decrypt-ccm_encrypt_example =
    ccm_decrypt-ccm_encrypt toy_cipher nonce (replicate 20 9) 8 (replicate 40 7) toy-IsCcmInput

feed-cmac_example :
    (finalize toy_cipher (feed toy_cipher (new toy_cipher) (replicate 5 1 ∷ replicate 27 2 ∷ []))
      ≡ cmac toy_cipher (joined (replicate 5 1 ∷ replicate 27 2 ∷ [])))
    × (finalize toy_cipher (
          feed toy_cipher
            (reset (feed toy_cipher (new toy_cipher) (replicate 3 1 ∷ [])))
            (replicate 5 1 ∷ replicate 27 2 ∷ []))
        ≡ cmac toy_cipher (joined (replicate 5 1 ∷ replicate 27 2 ∷ [])))
feed-cmac_example = feed-cmac toy_cipher (replicate 3 1 ∷ []) (replicate 5 1 ∷ replicate 27 2 ∷ [])
