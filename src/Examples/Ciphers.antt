-- ===== src/Examples/Ciphers.antt =====
-- The theorems on ciphers, with a small block function.
use mcu_crypto_asm.Aes.{ok}
use mcu_crypto_asm.Base.{length}
use mcu_crypto_asm.Aes.Ctr.{AesCtr, new, apply_keystream}
use mcu_crypto_asm.Aes.Ctr.Stream.{IsCtr, Follows, apply_keystream-Follows}
use mcu_crypto_asm.Aes.Gcm.{encrypt, decrypt}
use mcu_crypto_asm.Aes.Gcm.Laws.{IsOpened, decrypt-encrypt, decrypt-IsOpened}
use mcu_crypto_asm.Base.{ℕ, ◌+◌, ◌%◌, ◌^◌, ◌≡◌, refl, List, [], ◌∷◌, length, replicate, arith}
use mcu_crypto_asm.Aes.{AesEncrypt}

abbrev first_or_zero : List ℕ → ℕ
first_or_zero [] = 0
first_or_zero (b ∷ r) = b

-- A block of sixteen copies of the successor of the first byte.
abbrev toy : AesEncrypt
toy = record {
  encrypt_block = λ b. replicate 16 ((first_or_zero b + 1) % 2 ^ 8);
  length-encrypt_block = λ b. refl;
}

full-IsBytes : mcu_crypto_asm.Bytes.IsBytes (replicate 16 255)
full-IsBytes = ground arith

abbrev fresh : AesCtr
fresh = new (replicate 16 254)

fresh-IsCtr : IsCtr fresh
unfolding new
fresh-IsCtr = record { size = refl; within = omega arith }

apply_keystream-Follows_example :
    Follows toy fresh (replicate 100 3) (apply_keystream toy fresh (replicate 100 3))
apply_keystream-Follows_example = apply_keystream-Follows toy fresh (replicate 100 3) fresh-IsCtr

abbrev nonce : List ℕ
nonce = replicate 12 9

abbrev aad : List ℕ
aad = replicate 5 1

decrypt-encrypt_example :
    (ct tag : List ℕ) × (encrypt toy nonce aad (replicate 20 3) ≡ ok (ct, tag))
    × (length ct ≡ 20)
    × (length tag ≡ 16)
    × (decrypt toy nonce aad ct tag ≡ record { outcome = ok tt; buf = replicate 20 3 })
decrypt-encrypt_example = decrypt-encrypt toy nonce aad (replicate 20 3) refl

decrypt-IsOpened_example :
    IsOpened toy nonce aad
      (replicate 20 3)
      (replicate 16 0)
      (decrypt toy nonce aad (replicate 20 3) (replicate 16 0))
decrypt-IsOpened_example =
    decrypt-IsOpened toy nonce aad (replicate 20 3) (replicate 16 0) refl refl
