-- ===== src/Aes/Ccm.antt =====
-- src/aes.rs, CCM: the parameters, the CBC-MAC, the counter mode and the driver `AesCcm`. The calls that
-- wipe a temporary change no result and are left out.
pub mod Mac
pub mod Crypt
pub mod Laws
pub mod Driver
use mcu_crypto_asm.Base.{
  ℕ, zero, suc, ◌+◌, ◌-◌, ◌*◌, ◌/◌, ◌%◌, ◌^◌, List, [], ◌∷◌, ◌++◌, Bool, true, false, not, ◌&&◌,
  ◌||◌, min,
}
use mcu_crypto_asm.Base.{
  ltb, leb, ◌==◌, if◌then◌else◌, take, drop, length, replicate, u8, u64, bit_or, copy_at,
}
use mcu_crypto_asm.Bytes.{to_be32}
use mcu_crypto_asm.Keystream.{xor_bytes}
use mcu_crypto_asm.Fe.{diff_limbs}
use mcu_crypto_asm.Aes.{
  Outcome, ok, err, invalid_input, invalid_signature, ◌>>=◌, AesEncrypt, zero_block,
}
use mcu_crypto_asm.Aes.Gcm.{Opened, to_be64}

-- The lengths of a tag that the `match` lets pass.
unfoldable pub is_tag_len : ℕ → Bool
is_tag_len t =
    (t == 4) || ((t == 6) || ((t == 8) || ((t == 10) || ((t == 12) || ((t == 14) || (t == 16))))))

pub ccm_params : ℕ → ℕ → Outcome (ℕ × ℕ)
ccm_params nonce_len tag_len =
    if not (leb 7 nonce_len && leb nonce_len 13)
    then err invalid_input
    else if is_tag_len tag_len
    then ok (15 - nonce_len, tag_len)
    else err invalid_input

pub ccm_check_len : ℕ → ℕ → Outcome (Unit {0})
ccm_check_len q msg_len = if ltb q 8 && leb (2 ^ (8 * q)) msg_len then err invalid_input else ok tt

pub record CcmMac : Type 0 where
  pub y : List ℕ
  pub blk : List ℕ
  pub len : ℕ

pub mac_new : CcmMac
mac_new = record { y = zero_block; blk = zero_block; len = 0 }

-- `b0`: the flags, the nonce, and the length of the message in `q` bytes. The length of a slice fits 64
-- bits of the 128.
pub first_block : ℕ → ℕ → List ℕ → ℕ → ℕ → List ℕ
first_block q t nonce aad_len msg_len =
    let flags =
      bit_or (bit_or (if aad_len == 0 then 0 else 0x40) (u8 (u8 ((t - 2) / 2) * 2 ^ 3)))
        (u8 (q - 1)) in
    let mlen = replicate 8 0 ++ to_be64 msg_len in
    copy_at (16 - q) (drop (16 - q) mlen) (copy_at 1 nonce (flags ∷ replicate 15 0))

-- `hdr[..off]`
pub aad_header : ℕ → Outcome (List ℕ)
aad_header aad_len =
    if ltb aad_len 0xFF00
    then ok (aad_len / 2 ^ 8 % 2 ^ 8 ∷ aad_len % 2 ^ 8 ∷ [])
    else if leb aad_len (2 ^ 32 - 1)
    then ok (0xFF ∷ 0xFE ∷ to_be32 aad_len)
    else err invalid_input

pub ccm_ctr_block : ℕ → List ℕ → ℕ → List ℕ
ccm_ctr_block q nonce ctr =
    copy_at (16 - q) (drop (8 - q) (to_be64 ctr)) (copy_at 1 nonce (u8 (q - 1) ∷ replicate 15 0))

module _ (aes : AesEncrypt) where
  -- The new `y`.
  pub feed_block : List ℕ → List ℕ → List ℕ
  feed_block y blk = aes.encrypt_block (xor_bytes blk y)

  -- `if self.len == 16`
  pub feed_full : CcmMac → CcmMac
  feed_full m = if m.len == 16 then record { y = feed_block m.y m.blk; blk = m.blk; len = 0 } else m

  -- `while !data.is_empty()`, with a bound on the turns.
  pub feed_loop : ℕ → CcmMac → List ℕ → CcmMac
  feed_loop zero m msg = m
  feed_loop (suc turns) m [] = m
  feed_loop (suc turns) m (x ∷ msg) =
      let n = min (16 - m.len) (length (x ∷ msg)) in
      let m =
        feed_full
          (record { y = m.y; blk = copy_at m.len (take n (x ∷ msg)) m.blk; len = m.len + n }) in
      feed_loop turns m (drop n (x ∷ msg))

  pub feed : CcmMac → List ℕ → CcmMac
  feed m msg = feed_loop (length msg) m msg

  pub feed_padded : CcmMac → CcmMac
  feed_padded m =
      let blk = take m.len m.blk ++ replicate (16 - m.len) 0 in
      if ltb 0 m.len then record { y = feed_block m.y blk; blk = blk; len = 0 } else m

  pub feed_aad : CcmMac → List ℕ → Outcome CcmMac
  feed_aad m [] = ok m
  feed_aad m (x ∷ aad) = do
    header ← aad_header (length (x ∷ aad))
    let n = min (16 - length header) (length (x ∷ aad))
    ok (feed_padded (feed (feed m (header ++ take n (x ∷ aad))) (drop n (x ∷ aad))))

  pub ccm_cbc_mac : ℕ → ℕ → List ℕ → List ℕ → List ℕ → Outcome (List ℕ)
  ccm_cbc_mac q t nonce aad msg = do
    _ ← ccm_check_len q (length msg)
    let b0 = first_block q t nonce (length aad) (length msg)
    m ← feed_aad (record { y = feed_block mac_new.y b0; blk = mac_new.blk; len = 0 }) aad
    ok (feed_padded (feed m msg)).y

  -- `while offset < data.len()`, with a bound on the turns.
  pub crypt_loop : ℕ → ℕ → List ℕ → ℕ → List ℕ → List ℕ
  crypt_loop zero q nonce ctr msg = []
  crypt_loop (suc turns) q nonce ctr [] = []
  crypt_loop (suc turns) q nonce ctr (x ∷ msg) =
      xor_bytes (take 16 (x ∷ msg)) (aes.encrypt_block (ccm_ctr_block q nonce ctr))
      ++ crypt_loop turns q nonce (u64 (ctr + 1)) (drop 16 (x ∷ msg))

  pub ccm_ctr_crypt : ℕ → List ℕ → ℕ → List ℕ → List ℕ
  ccm_ctr_crypt q nonce start msg = crypt_loop (length msg) q nonce start msg

  -- The first `t` bytes of the CBC-MAC, enciphered.
  pub ccm_tag : ℕ → ℕ → List ℕ → List ℕ → List ℕ
  ccm_tag q t nonce mac = take t (xor_bytes mac (aes.encrypt_block (ccm_ctr_block q nonce 0)))

  -- The buffer and the tag that `encrypt` writes; `tag_len` is `tag.len()`.
  pub ccm_encrypt : List ℕ → List ℕ → List ℕ → ℕ → Outcome (List ℕ × List ℕ)
  ccm_encrypt nonce aad buf tag_len = do
    p ← ccm_params (length nonce) tag_len
    mac ← ccm_cbc_mac p.0 p.1 nonce aad buf
    ok (ccm_ctr_crypt p.0 nonce 1 buf, ccm_tag p.0 p.1 nonce mac)

  pub check_tag : ℕ → ℕ → List ℕ → List ℕ → List ℕ → Outcome (List ℕ) → Opened
  check_tag q t nonce buf tag (err e) = record { outcome = err e; buf = buf }
  check_tag q t nonce buf tag (ok mac) =
      if not (diff_limbs 0 (ccm_tag q t nonce mac) tag == 0)
      then record { outcome = err invalid_signature; buf = buf }
      else record { outcome = ok tt; buf = buf }

  -- The buffer is deciphered before the tag is known.
  pub open_with : List ℕ → List ℕ → List ℕ → List ℕ → Outcome (ℕ × ℕ) → Opened
  open_with nonce aad buf tag (err e) = record { outcome = err e; buf = buf }
  open_with nonce aad buf tag (ok p) =
      let buf = ccm_ctr_crypt p.0 nonce 1 buf in
      check_tag p.0 p.1 nonce buf tag (ccm_cbc_mac p.0 p.1 nonce aad buf)

  pub ccm_decrypt : List ℕ → List ℕ → List ℕ → List ℕ → Opened
  ccm_decrypt nonce aad buf tag =
      open_with nonce aad buf tag (ccm_params (length nonce) (length tag))
