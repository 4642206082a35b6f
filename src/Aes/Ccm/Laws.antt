-- ===== src/Aes/Ccm/Laws.antt =====
-- The CBC-MAC of CCM, src/aes.rs, as a chain over the formatted data.
use mcu_crypto_asm.Base.{
  ℕ, zero, suc, ◌-◌, ◌*◌, ◌/◌, ◌%◌, ◌^◌, ◌<◌, ◌≡◌, refl, ap, ◌∙◌, inl, inr, List, [], ◌∷◌, ◌++◌,
  append_assoc, ltb, leb, min, arith, Bool-cases, true, false, ◌&&◌, if◌then◌else◌,
}
use mcu_crypto_asm.Base.{length, take, drop, take-append-drop}
use mcu_crypto_asm.Keystream.{xor_bytes}
use mcu_crypto_asm.Aes.{Outcome, ok, err, invalid_input, AesEncrypt, zero_block, ◌>>=◌}
use mcu_crypto_asm.Aes.Ccm.{
  CcmMac, mac_new, ccm_check_len, first_block, aad_header, feed_block, feed, feed_padded, feed_aad,
  ccm_cbc_mac,
}
use mcu_crypto_asm.Aes.Ccm.Mac.{IsMac, padded, chained, ended, feed-fresh, feed-feed, view}
use mcu_crypto_asm.Bytes.{to_be32}
use mcu_crypto_asm.Absorb.{blocks}

-- The length of the associated data in front of it, and zeros.
unfoldable pub formatted : AesEncrypt → List ℕ → List ℕ → List ℕ
formatted aes header [] = []
formatted aes header (x ∷ aad) = padded aes (header ++ (x ∷ aad))

unfoldable pub header_of : ℕ → List ℕ
header_of n = if ltb n 0xFF00 then n / 2 ^ 8 % 2 ^ 8 ∷ n % 2 ^ 8 ∷ [] else 0xFF ∷ 0xFE ∷ to_be32 n

-- The chain from zeros over the first block, the associated data and the message.
unfoldable pub cbc : AesEncrypt → ℕ → ℕ → List ℕ → List ℕ → List ℕ → List ℕ
cbc aes q t nonce aad msg =
    let y = feed_block aes zero_block (first_block q t nonce (length aad) (length msg)) in
    chained aes (chained aes y (formatted aes (header_of (length aad)) aad)) (padded aes msg)

aad_header-header_of : (n : ℕ) → n < 2 ^ 32 → aad_header n ≡ ok (header_of n)
unfolding aad_header header_of
aad_header-header_of n few = elim (Bool-cases (ltb n 0xFF00)) [
  | inl short ↦ rw (short, aad_header) refl
  | inr long ↦
      let fits : leb n (2 ^ 32 - 1) ≡ true = ground (arith, few) in rw (long, fits, aad_header) refl
]

feed_aad-chained :
    (aes : AesEncrypt) (m : CcmMac) (aad : List ℕ)
    → IsMac aes m
    → m.len ≡ 0
    → length aad < 2 ^ 32
    → (out : CcmMac) × (feed_aad aes m aad ≡ ok out)
      × IsMac aes out
      × (out.len ≡ 0)
      × (out.y ≡ chained aes m.y (formatted aes (header_of (length aad)) aad))
unfolding feed_aad formatted chained blocks
feed_aad-chained aes m [] h start few = (m, refl, h, start, refl)
feed_aad-chained aes m (x ∷ aad) h start few =
    let all = x ∷ aad in
    let header = header_of (length all) in
    let n = min (16 - length header) (length all) in
    let (fed_ok, seen) = feed-feed aes m (header ++ take n all) (drop n all) h in
    let joined : header ++ take n all ++ drop n all ≡ header ++ all =
      append_assoc header (take n all) (drop n all)
      ∙ ap (λ t. header ++ t) (take-append-drop n all) in
    let fed = feed aes (feed aes m (header ++ take n all)) (drop n all) in
    let (last_ok, done, y) = ended aes m.y (header ++ all) fed fed_ok (
      seen
      ∙ ap (λ d. view aes (feed aes m d)) joined
      ∙ (feed-fresh aes m (header ++ all) h start).1) in
    (feed_padded aes fed, rw (aad_header-header_of (length all) few) refl, last_ok, done, y)

-- For a message that fits its length field and fewer than `2 ^ 32` bytes of associated data,
-- `ccm_cbc_mac` is the chain over the first block, the associated data with its length in front
-- and zeros behind, and the message with zeros behind.
pub ccm_cbc_mac-cbc :
    (aes : AesEncrypt) (q t : ℕ) (nonce aad msg : List ℕ)
    → length msg < 2 ^ (8 * q)
    → length aad < 2 ^ 32
    → ccm_cbc_mac aes q t nonce aad msg ≡ ok (cbc aes q t nonce aad msg)
unfolding ccm_cbc_mac ccm_check_len mac_new cbc
ccm_cbc_mac-cbc aes q t nonce aad msg fits few =
    let y = feed_block aes zero_block (first_block q t nonce (length aad) (length msg)) in
    let m : CcmMac = record { y = y; blk = zero_block; len = 0 } in
    let (out, fed, out_ok, start, out_y) =
      feed_aad-chained aes m aad (record { size = refl; room = omega arith }) refl few in
    let (fed_ok, seen) = feed-fresh aes out msg out_ok start in
    let (last_ok, done, last) = ended aes out.y msg (feed aes out msg) fed_ok seen in
    let test : (ltb q 8 && leb (2 ^ (8 * q)) (length msg)) ≡ false = ground (arith, fits) in
    let closing : CcmMac → Outcome (List ℕ) = λ m. ok (feed_padded aes (feed aes m msg)).y in
    ap (λ b. (if b then err invalid_input else ok tt) >>= (λ _. feed_aad aes m aad >>= closing))
      test
    ∙ ap (λ o. o >>= closing) fed
    ∙ ap ok (last ∙ ap (λ y. chained aes y (padded aes msg)) out_y)

blocks-size :
    (aes : AesEncrypt) (k : ℕ) (y d : List ℕ)
    → length y ≡ 16
    → length (blocks (feed_block aes) 16 k y d) ≡ 16
unfolding blocks feed_block
blocks-size aes zero y d n = n
blocks-size aes (suc k) y d n =
    blocks-size aes k (feed_block aes y (take 16 d)) (drop 16 d)
      (aes.length-encrypt_block (xor_bytes (take 16 d) y))

pub length-cbc :
    (aes : AesEncrypt) (q t : ℕ) (nonce aad msg : List ℕ) → length (cbc aes q t nonce aad msg) ≡ 16
unfolding cbc chained feed_block
length-cbc aes q t nonce aad msg =
    blocks-size aes (length (padded aes msg) / 16)
      (chained aes (feed_block aes zero_block (first_block q t nonce (length aad) (length msg)))
        (formatted aes (header_of (length aad)) aad))
      (padded aes msg)
      (blocks-size aes (length (formatted aes (header_of (length aad)) aad) / 16)
        (feed_block aes zero_block (first_block q t nonce (length aad) (length msg)))
        (formatted aes (header_of (length aad)) aad)
        (aes.length-encrypt_block
          (xor_bytes (first_block q t nonce (length aad) (length msg)) zero_block)))
