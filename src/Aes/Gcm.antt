-- ===== src/Aes/Gcm.antt =====
-- src/aes.rs, GCM: the tag, the counter's start, and the driver `AesGcm`.
pub mod Laws
use mcu_crypto_asm.Base.{
  ℕ, zero, suc, ◌+◌, ◌-◌, ◌*◌, ◌/◌, ◌%◌, ◌^◌, ◌≡◌, List, [], ◌∷◌, ◌++◌, Bool, true, false,
}
use mcu_crypto_asm.Base.{◌==◌, not, if◌then◌else◌, get_or, take, drop, length, replicate, u32, u64}
use mcu_crypto_asm.Bytes.{to_be32}
use mcu_crypto_asm.Keystream.{xor_bytes}
use mcu_crypto_asm.Fe.{diff_limbs}
use mcu_crypto_asm.Ghash.{Htable, htable_new, Ghash, from_htable, update_block, finalize}
use mcu_crypto_asm.Aes.{AesError, Outcome, ok, err, invalid_input, invalid_signature, ◌>>=◌}
use mcu_crypto_asm.Aes.{AesEncrypt, zero_block, inc32, ctr_apply}

pub gcm_htable : AesEncrypt → Htable
gcm_htable aes = htable_new (aes.encrypt_block zero_block)

-- `data.chunks_exact(16)`, as many chunks as the first argument says.
pub update_blocks : ℕ → Ghash → List ℕ → Ghash
update_blocks zero g msg = g
update_blocks (suc n) g msg = update_blocks n (update_block g (take 16 msg)) (drop 16 msg)

pub update_padded : Ghash → List ℕ → Ghash
update_padded g [] = g
update_padded g (x ∷ rem) = update_block g (x ∷ rem ++ replicate (16 - length (x ∷ rem)) 0)

pub ghash_update_padded : Ghash → List ℕ → Ghash
ghash_update_padded g msg =
    let blocks = length msg / 16 in
    update_padded (update_blocks blocks g msg) (drop (blocks * 16) msg)

pub to_be64 : ℕ → List ℕ
to_be64 x = to_be32 (x / 2 ^ 32) ++ to_be32 (x % 2 ^ 32)

pub gcm_length_block : ℕ → ℕ → List ℕ
gcm_length_block aad_len ct_len = to_be64 (u64 (aad_len * 8)) ++ to_be64 (u64 (ct_len * 8))

pub gcm_j0 : Htable → List ℕ → Outcome (List ℕ)
gcm_j0 htable nonce =
    if length nonce == 12
    then ok (nonce ++ (0 ∷ 0 ∷ 0 ∷ 1 ∷ []))
    else if length nonce == 0
    then err invalid_input
    else ok (
        finalize (
          update_block (ghash_update_padded (from_htable htable) nonce)
            (gcm_length_block 0 (length nonce))))

pub gcm_tag : AesEncrypt → Htable → List ℕ → List ℕ → List ℕ → List ℕ
gcm_tag aes htable j0 aad ct =
    let g = ghash_update_padded (ghash_update_padded (from_htable htable) aad) ct in
    let s = finalize (update_block g (gcm_length_block (length aad) (length ct))) in
    xor_bytes s (aes.encrypt_block j0)

pub gcm_ctr_start : List ℕ → List ℕ
gcm_ctr_start j0 = inc32 j0

-- What `decrypt` returns, and the buffer that it leaves.
pub record Opened : Type 0 where
  pub outcome : Outcome (Unit {0})
  pub buf : List ℕ

module _ (aes : AesEncrypt) where
  -- The buffer and the tag that `encrypt` writes.
  pub encrypt : List ℕ → List ℕ → List ℕ → Outcome (List ℕ × List ℕ)
  encrypt nonce aad buf =
      let htable = gcm_htable aes in
      do
        j0 ← gcm_j0 htable nonce
        let ct = (ctr_apply aes inc32 (gcm_ctr_start j0) buf).1
        ok (ct, gcm_tag aes htable j0 aad ct)

  pub check_and_open : Htable → List ℕ → List ℕ → List ℕ → List ℕ → Opened
  check_and_open htable aad buf tag j0 =
      let t = gcm_tag aes htable j0 aad buf in
      if not (diff_limbs 0 t tag == 0)
      then record { outcome = err invalid_signature; buf = replicate (length buf) 0 }
      else record { outcome = ok tt; buf = (ctr_apply aes inc32 (gcm_ctr_start j0) buf).1 }

  pub opened : List ℕ → (List ℕ → Opened) → Outcome (List ℕ) → Opened
  opened buf continue (err e) = record { outcome = err e; buf = buf }
  opened buf continue (ok j0) = continue j0

  pub decrypt : List ℕ → List ℕ → List ℕ → List ℕ → Opened
  decrypt nonce aad buf tag =
      let htable = gcm_htable aes in
      opened buf (check_and_open htable aad buf tag) (gcm_j0 htable nonce)
