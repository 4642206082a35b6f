-- ===== src/Aes/Ccm/Driver.antt =====
-- The driver `AesCcm` of src/aes.rs.
use mcu_crypto_asm.Base.{
  ℕ, ◌-◌, ◌*◌, ◌^◌, ◌<◌, ◌≤◌, ◌≡◌, refl, ap, sym, ◌∙◌, inl, inr, List, leb, arith, Bool-cases, ◌==◌,
  true, not, ◌&&◌, if◌then◌else◌, clash,
}
use mcu_crypto_asm.Base.{length, length-take}
use mathlib.Core.Path.{subst}
use mcu_crypto_asm.Keystream.{xor_bytes, length-xor_bytes}
use mcu_crypto_asm.Fe.{diff_limbs}
use mcu_crypto_asm.Fe.Compare.{diff_limbs_iff}
use mcu_crypto_asm.Aes.{ok, err, invalid_signature, AesEncrypt}
use mcu_crypto_asm.Aes.Gcm.{Opened}
use mcu_crypto_asm.Aes.Ccm.{
  is_tag_len, ccm_params, ccm_ctr_block, ccm_cbc_mac, ccm_ctr_crypt, ccm_tag, ccm_encrypt,
  check_tag, open_with, ccm_decrypt,
}
use mcu_crypto_asm.Aes.Ccm.Crypt.{length-ccm_ctr_crypt, ccm_ctr_crypt_cancel}
use mcu_crypto_asm.Aes.Ccm.Laws.{cbc, length-cbc, ccm_cbc_mac-cbc}

-- The lengths that CCM takes.
pub record IsCcmInput (nonce aad buf : List ℕ) (tag_len : ℕ) : Type 0 where
  pub least : 7 ≤ length nonce
  pub most : length nonce ≤ 13
  pub tag : is_tag_len tag_len ≡ true
  pub fits : length buf < 2 ^ (8 * (15 - length nonce))
  pub short : length aad < 2 ^ 32

is_tag_len-bound : (t : ℕ) → is_tag_len t ≡ true → t ≤ 16
unfolding is_tag_len
is_tag_len-bound t h = ground (arith, h)

module _ (aes : AesEncrypt) (nonce aad : List ℕ) (tag_len : ℕ) where
  abbrev q : ℕ
  q = 15 - length nonce

  params_lem :
      7 ≤ length nonce
      → length nonce ≤ 13
      → is_tag_len tag_len ≡ true
      → ccm_params (length nonce) tag_len ≡ ok (q, tag_len)
  unfolding ccm_params
  params_lem least most tag =
      let inside : (leb 7 (length nonce) && leb (length nonce) 13) ≡ true =
        ground (arith, least, most) in
      rw (inside, tag, ccm_params) refl

  -- The tag of a message.
  unfoldable pub tag_of : List ℕ → List ℕ
  tag_of msg = ccm_tag aes q tag_len nonce (cbc aes q tag_len nonce aad msg)

  unfoldable pub plaintext : List ℕ → List ℕ
  plaintext buf = ccm_ctr_crypt aes q nonce 1 buf

  length-tag_of : (msg : List ℕ) → is_tag_len tag_len ≡ true → length (tag_of msg) ≡ tag_len
  unfolding tag_of ccm_tag
  length-tag_of msg tag =
      let mac = cbc aes q tag_len nonce aad msg in
      let key = aes.encrypt_block (ccm_ctr_block q nonce 0) in
      omega (
        arith,
        length-take tag_len (xor_bytes mac key),
        length-xor_bytes mac key,
        length-cbc aes q tag_len nonce aad msg,
        is_tag_len-bound tag_len tag,
      )

  -- What `decrypt` does with a tag; the buffer holds the deciphered data either way.
  pub data IsCcmOpened (buf tag : List ℕ) : Opened → Type 0 where
    accepted :
        tag ≡ tag_of (plaintext buf)
        → IsCcmOpened buf tag (record { outcome = ok tt; buf = plaintext buf })
    refused :
        ¬ (tag ≡ tag_of (plaintext buf))
        → IsCcmOpened buf tag (record { outcome = err invalid_signature; buf = plaintext buf })

  checked :
      (buf tag : List ℕ)
      → is_tag_len tag_len ≡ true
      → length tag ≡ tag_len
      → IsCcmOpened buf tag (
          check_tag aes q tag_len nonce
            (plaintext buf)
            tag
            (ok (cbc aes q tag_len nonce aad (plaintext buf))))
  unfolding check_tag tag_of
  checked buf tag good n =
      let mine = tag_of (plaintext buf) in
      let test = diff_limbs_iff mine tag (length-tag_of (plaintext buf) good ∙ sym n) in
      elim (Bool-cases (diff_limbs 0 mine tag == 0)) [
        | inl eq ↦ rw eq (accepted (sym (test.0 eq)))
        | inr ne ↦ rw ne (refused λ e. clash ne (test.1 (sym e)))
      ]

  -- For the same lengths, and a tag of the length named, CCM's `decrypt` succeeds exactly when
  -- the tag is the one of the deciphered data, and otherwise answers an invalid signature; the
  -- buffer holds the deciphered data in both cases.
  pub ccm_decrypt-IsCcmOpened :
      (buf tag : List ℕ)
      → IsCcmInput nonce aad buf tag_len
      → length tag ≡ tag_len
      → IsCcmOpened buf tag (ccm_decrypt aes nonce aad buf tag)
  unfolding ccm_decrypt open_with plaintext
  ccm_decrypt-IsCcmOpened buf tag h n =
      let size : length (plaintext buf) ≡ length buf = length-ccm_ctr_crypt aes q nonce 1 buf in
      let mac =
        ccm_cbc_mac-cbc aes q tag_len nonce aad (plaintext buf) (omega (arith, size, h.fits))
          h.short in
      subst (IsCcmOpened buf tag)
        (sym (
          ap (λ k. open_with aes nonce aad buf tag (ccm_params (length nonce) k)) n
          ∙ ap (open_with aes nonce aad buf tag) (params_lem h.least h.most h.tag)
          ∙ ap (check_tag aes q tag_len nonce (plaintext buf) tag) mac))
        (checked buf tag h.tag n)

  -- With a nonce of 7 to 13 bytes, a tag length that CCM takes, a message that fits its length
  -- field and fewer than `2 ^ 32` bytes of associated data, CCM's `encrypt` succeeds, with a
  -- ciphertext as long as the plaintext and a tag of that length, and `decrypt` of what it puts
  -- out gives the plaintext back.
  pub ccm_decrypt-ccm_encrypt :
      (buf : List ℕ)
      → IsCcmInput nonce aad buf tag_len
      → (ct tag : List ℕ) × (ccm_encrypt aes nonce aad buf tag_len ≡ ok (ct, tag))
        × (length ct ≡ length buf)
        × (length tag ≡ tag_len)
        × (ccm_decrypt aes nonce aad ct tag ≡ record { outcome = ok tt; buf = buf })
  unfolding ccm_encrypt ccm_decrypt open_with check_tag tag_of
  ccm_decrypt-ccm_encrypt buf h =
      let ct = ccm_ctr_crypt aes q nonce 1 buf in
      let tag = tag_of buf in
      let size : length ct ≡ length buf = length-ccm_ctr_crypt aes q nonce 1 buf in
      let tag_size = length-tag_of buf h.tag in
      let params = params_lem h.least h.most h.tag in
      let mac = ccm_cbc_mac-cbc aes q tag_len nonce aad buf h.fits h.short in
      let same = (diff_limbs_iff tag tag refl).1 refl in
      (
        ct,
        tag,
        rw (params, mac) refl,
        size,
        tag_size,
        ap (λ k. open_with aes nonce aad ct tag (ccm_params (length nonce) k)) tag_size
            ∙ ap (open_with aes nonce aad ct tag) params
            ∙ ap (λ b. check_tag aes q tag_len nonce b tag (ccm_cbc_mac aes q tag_len nonce aad b))
                (ccm_ctr_crypt_cancel aes q nonce 1 buf)
            ∙ ap (check_tag aes q tag_len nonce buf tag) mac
            ∙ ap
                (λ b.
                  if not b
                  then record { outcome = err invalid_signature; buf = buf }
                  else record { outcome = ok tt; buf = buf })
                same,
      )
