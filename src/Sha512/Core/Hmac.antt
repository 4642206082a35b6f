-- ===== src/Sha512/Core/Hmac.antt =====
-- HMAC of src/sha512.rs, against RFC 2104.
use mcu_crypto_asm.Base.{
  ℕ, ◌-◌, ◌≡◌, refl, ap, sym, ◌∙◌, inl, inr, List, [], ◌∷◌, ◌++◌, ◌+◌, append_assoc, drop-replicate,
  ltb, map, bit_xor, Bool-cases, if◌then◌else◌, arith,
}
use mcu_crypto_asm.Base.{length, take, drop, copy_at, replicate, append-nil}
use mcu_crypto_asm.Absorb.{joined}
use mcu_crypto_asm.Sha512.{new}
use mcu_crypto_asm.Sha512.Core.{
  HmacSha512Family, key_block, hmac_new, hmac_update, hmac_finalize, core_update,
}
use mcu_crypto_asm.Sha512.Core.Digest.{hash}
use mcu_crypto_asm.Sha512.Core.Message.{
  IsAfter, new-IsAfter, core_update-IsAfter, core_finalize-IsAfter, core_hash,
}

-- The key of RFC 2104: a long one is hashed, and zeros fill the block.
unfoldable pub padded_key : List ℕ → List ℕ → ℕ → List ℕ
padded_key iv key out_len =
    let key = if ltb 128 (length key) then take out_len (hash iv key) else key in
    key ++ replicate (128 - length key) 0

unfoldable pub hmac : List ℕ → List ℕ → ℕ → List ℕ → List ℕ
hmac iv key out_len msg =
    let k = padded_key iv key out_len in
    hash iv
      (map (λ x. bit_xor x 0x5C) k ++ take out_len (hash iv (map (λ x. bit_xor x 0x36) k ++ msg)))

fill_zeros : (x : List ℕ) → copy_at 0 x (replicate 128 0) ≡ x ++ replicate (128 - length x) 0
fill_zeros x =
    let same : 0 + length x ≡ length x = omega arith in
    ap (λ t. x ++ t)
      (ap (λ k. drop k (replicate {A = ℕ} 128 0)) same ∙ drop-replicate {A = ℕ} (length x) 128 0)

key_block_lem :
    (iv key : List ℕ) (out_len : ℕ) → key_block iv key out_len ≡ padded_key iv key out_len
unfolding key_block padded_key
key_block_lem iv key out_len = elim (Bool-cases (ltb 128 (length key))) [
  | inl long ↦ rw (long, core_hash iv key) (fill_zeros (take out_len (hash iv key)))
  | inr short ↦ rw short (fill_zeros key)
]

-- The pieces of a message, one after the other.
unfoldable pub hmac_feed : HmacSha512Family → List (List ℕ) → HmacSha512Family
hmac_feed mac [] = mac
hmac_feed mac (d ∷ pieces) = hmac_feed (hmac_update mac d) pieces

-- What a context of HMAC keeps.
record IsMac (iv key : List ℕ) (out_len : ℕ) (msg : List ℕ) (mac : HmacSha512Family) : Type 0 where
  after : IsAfter iv (map (λ x. bit_xor x 0x36) (padded_key iv key out_len) ++ msg) mac.inner
  outer : mac.opad ≡ map (λ x. bit_xor x 0x5C) (padded_key iv key out_len)
  size : mac.out_len ≡ out_len

hmac_new-IsMac : (iv key : List ℕ) (out_len : ℕ) → IsMac iv key out_len [] (hmac_new iv key out_len)
unfolding hmac_new
hmac_new-IsMac iv key out_len =
    let k = padded_key iv key out_len in
    let inner = map (λ x. bit_xor x 0x36) k in
    let block = key_block_lem iv key out_len in
    record {
      after =
          rw (append-nil inner, block) (core_update-IsAfter iv [] inner (new iv) (new-IsAfter iv));
      outer = rw block refl;
      size = refl;
    }

feed-IsMac :
    (iv key : List ℕ) (out_len : ℕ) (msg : List ℕ) (mac : HmacSha512Family) (pieces : List (List ℕ))
    → IsMac iv key out_len msg mac
    → IsMac iv key out_len (msg ++ joined pieces) (hmac_feed mac pieces)
unfolding hmac_feed joined hmac_update
feed-IsMac iv key out_len msg mac [] h = rw (append-nil msg) h
feed-IsMac iv key out_len msg mac (d ∷ pieces) h = rw (sym (append_assoc msg d (joined pieces))) (
    feed-IsMac iv key out_len (msg ++ d) (hmac_update mac d) pieces (record {
      after =
          rw (sym (append_assoc (map (λ x. bit_xor x 0x36) (padded_key iv key out_len)) msg d)) (
            core_update-IsAfter iv (map (λ x. bit_xor x 0x36) (padded_key iv key out_len) ++ msg) d
              mac.inner h.after);
      outer = h.outer;
      size = h.size;
    }))

-- For every initial value, key, digest length and pieces of a message, HMAC's `new`, `update` on
-- each piece and `finalize` give the nested hashes of RFC 2104 over the joined message.
pub hmac_finalize-hmac :
    (iv key : List ℕ) (out_len : ℕ) (pieces : List (List ℕ))
    → hmac_finalize (hmac_feed (hmac_new iv key out_len) pieces) iv
      ≡ hmac iv key out_len (joined pieces)
unfolding hmac_finalize hmac
hmac_finalize-hmac iv key out_len pieces =
    let mac = hmac_feed (hmac_new iv key out_len) pieces in
    let k = padded_key iv key out_len in
    let msg = joined pieces in
    let opad = map (λ x. bit_xor x 0x5C) k in
    let inner = map (λ x. bit_xor x 0x36) k ++ msg in
    let ok : IsMac iv key out_len msg mac =
      feed-IsMac iv key out_len [] (hmac_new iv key out_len) pieces
        (hmac_new-IsMac iv key out_len) in
    rw (ok.outer, ok.size, core_finalize-IsAfter iv inner mac.inner ok.after)
      (core_finalize-IsAfter iv (opad ++ take out_len (hash iv inner))
        (core_update (core_update (new iv) opad) (take out_len (hash iv inner)))
        (core_update-IsAfter iv opad (take out_len (hash iv inner)) (core_update (new iv) opad)
          (core_update-IsAfter iv [] opad (new iv) (new-IsAfter iv))))
