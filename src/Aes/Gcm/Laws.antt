-- ===== src/Aes/Gcm/Laws.antt =====
-- The driver `AesGcm` of src/aes.rs: its tag, `encrypt` and `decrypt`.
use mcu_crypto_asm.Base.{
  ℕ, zero, suc, ◌/◌, ◌≡◌, refl, sym, ◌∙◌, List, [], ◌∷◌, ◌++◌, length, take, drop, replicate,
  Bool-cases, inl, inr, ◌==◌, ==_iff, clash,
}
use mcu_crypto_asm.Keystream.{length-xor_bytes}
use mcu_crypto_asm.Fe.{diff_limbs}
use mcu_crypto_asm.Fe.Compare.{diff_limbs_iff}
use mcu_crypto_asm.Ghash.{Htable, Ghash, update_block}
use mcu_crypto_asm.Ghash.Size.{IsState, from_htable-IsState, update_block-IsState, length-finalize}
use mcu_crypto_asm.Aes.{ok, err, invalid_signature, AesEncrypt, inc32, ctr_apply}
use mcu_crypto_asm.Aes.Counter.{ctr_apply_cancel, length-ctr_apply}
use mcu_crypto_asm.Aes.Gcm.{
  gcm_htable, gcm_j0, gcm_tag, gcm_ctr_start, Opened, encrypt, decrypt, check_and_open, opened,
}
use mcu_crypto_asm.Aes.Gcm.{update_blocks, update_padded, ghash_update_padded}

update_blocks-IsState :
    (n : ℕ) (g : Ghash) (msg : List ℕ) → IsState g → IsState (update_blocks n g msg)
unfolding update_blocks
update_blocks-IsState zero g msg h = h
update_blocks-IsState (suc n) g msg h =
    update_blocks-IsState n (update_block g (take 16 msg)) (drop 16 msg)
      (update_block-IsState g (take 16 msg) h)

update_padded-IsState : (g : Ghash) (msg : List ℕ) → IsState g → IsState (update_padded g msg)
unfolding update_padded
update_padded-IsState g [] h = h
update_padded-IsState g (x ∷ rem) h = update_block-IsState g _ h

ghash_update_padded-IsState :
    (g : Ghash) (msg : List ℕ) → IsState g → IsState (ghash_update_padded g msg)
unfolding ghash_update_padded
ghash_update_padded-IsState g msg h =
    update_padded-IsState (update_blocks (length msg / 16) g msg) _
      (update_blocks-IsState (length msg / 16) g msg h)

pub length-gcm_tag :
    (aes : AesEncrypt) (htable : Htable) (j0 aad ct : List ℕ)
    → length (gcm_tag aes htable j0 aad ct) ≡ 16
unfolding gcm_tag
length-gcm_tag aes htable j0 aad ct =
    length-xor_bytes _ (aes.encrypt_block j0)
    ∙ length-finalize _ (
        update_block-IsState _ _ (
          ghash_update_padded-IsState _ ct
            (ghash_update_padded-IsState _ aad (from_htable-IsState htable))))

module _ (aes : AesEncrypt) (nonce aad : List ℕ) where
  -- The first counter block of a nonce of twelve bytes.
  abbrev pub nonce_j0 : List ℕ
  nonce_j0 = nonce ++ (0 ∷ 0 ∷ 0 ∷ 1 ∷ [])

  abbrev pub expected : List ℕ → List ℕ
  expected ct = gcm_tag aes (gcm_htable aes) nonce_j0 aad ct

  abbrev pub decoded : List ℕ → List ℕ
  decoded ct = (ctr_apply aes inc32 (gcm_ctr_start nonce_j0) ct).1

  -- What `decrypt` does with a tag: the buffer is deciphered if the tag is the one of the data, and
  -- otherwise an error comes back and the buffer holds zeros.
  pub data IsOpened (ct tag : List ℕ) : Opened → Type 0 where
    accepted : tag ≡ expected ct → IsOpened ct tag (record { outcome = ok tt; buf = decoded ct })
    refused :
        ¬ (tag ≡ expected ct)
        → IsOpened ct tag
            (record { outcome = err invalid_signature; buf = replicate (length ct) 0 })

  j0_lem : length nonce ≡ 12 → gcm_j0 (gcm_htable aes) nonce ≡ ok nonce_j0
  unfolding gcm_j0
  j0_lem n = rw ((==_iff (length nonce) 12).1 n, gcm_j0) refl

  -- With a nonce of 12 bytes and a tag of 16, GCM's `decrypt` deciphers the buffer exactly when
  -- the tag is the one of the data, and otherwise answers an invalid signature and leaves zeros.
  pub decrypt-IsOpened :
      (ct tag : List ℕ)
      → length nonce ≡ 12
      → length tag ≡ 16
      → IsOpened ct tag (decrypt aes nonce aad ct tag)
  unfolding decrypt check_and_open opened
  decrypt-IsOpened ct tag n k =
      let same = length-gcm_tag aes (gcm_htable aes) nonce_j0 aad ct in
      let test = diff_limbs_iff (expected ct) tag (same ∙ sym k) in
      rw (j0_lem n) (elim (Bool-cases (diff_limbs 0 (expected ct) tag == 0)) [
        | inl eq ↦ rw eq (accepted (sym (test.0 eq)))
        | inr ne ↦ rw ne (refused λ e. clash ne (test.1 (sym e)))
      ])

  -- With a nonce of 12 bytes GCM's `encrypt` succeeds, with a ciphertext as long as the plaintext
  -- and a tag of 16 bytes, and `decrypt` of what it puts out gives the plaintext back.
  pub decrypt-encrypt :
      (buf : List ℕ)
      → length nonce ≡ 12
      → (ct tag : List ℕ) × (encrypt aes nonce aad buf ≡ ok (ct, tag))
        × (length ct ≡ length buf)
        × (length tag ≡ 16)
        × (decrypt aes nonce aad ct tag ≡ record { outcome = ok tt; buf = buf })
  unfolding encrypt decrypt check_and_open opened
  decrypt-encrypt buf n =
      let ct = decoded buf in
      let zero_diff = (diff_limbs_iff (expected ct) (expected ct) refl).1 refl in
      (
        ct,
        expected ct,
        rw (j0_lem n),
        length-ctr_apply aes inc32 (gcm_ctr_start nonce_j0) buf,
        length-gcm_tag aes (gcm_htable aes) nonce_j0 aad ct,
        rw (j0_lem n, zero_diff, ctr_apply_cancel aes inc32 (gcm_ctr_start nonce_j0) buf),
      )
