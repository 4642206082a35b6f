-- ===== src/Sha512/Core.antt =====
-- `Sha512Core` of src/sha512.rs, the streaming core with a configurable initial value, its users, and HMAC.
pub mod Padding
pub mod Digest
pub mod Message
pub mod Hmac
use mcu_crypto_asm.Base.{
  ℕ, zero, suc, ◌+◌, ◌-◌, ◌*◌, ◌/◌, ◌%◌, ◌^◌, List, [], ◌∷◌, ◌++◌, Bool, true, false, min,
}
use mcu_crypto_asm.Base.{
  ltb, ◌==◌, if◌then◌else◌, take, drop, length, replicate, map, bit_xor, copy_at,
}
use mcu_crypto_asm.Sha512.Constants.{sha512_224_iv, sha512_256_iv}
use mcu_crypto_asm.Sha512.{
  Sha512, new, compress_blocks, with_state, fill_buffer, keep_rest, count_bytes, to_be128,
  digest_bytes,
}

-- `for blk in data.chunks_exact(128)`, as many chunks as the first argument says.
pub chunks_loop : ℕ → Sha512 → List ℕ → Sha512
chunks_loop zero h msg = h
chunks_loop (suc n) h msg =
    chunks_loop n (with_state h (compress_blocks h.state (take 128 msg))) (drop 128 msg)

-- `Sha512Core::update`
pub core_update : Sha512 → List ℕ → Sha512
core_update h msg =
    let h = count_bytes h (length msg) in
    let n = if ltb 0 h.buf_len then min (128 - h.buf_len) (length msg) else 0 in
    let h = if ltb 0 h.buf_len then fill_buffer h (take n msg) else h in
    let msg = drop n msg in
    keep_rest (chunks_loop (length msg / 128) h msg) (drop (length msg / 128 * 128) msg)

-- `while self.buf_len != 112 { self.update(&[0]) }`, with a bound on the turns.
pub pad_loop : ℕ → Sha512 → Sha512
pad_loop zero h = h
pad_loop (suc n) h = elim (h.buf_len == 112) [
  | true ↦ h
  | false ↦ pad_loop n (core_update h (0 ∷ []))
]

-- `Sha512Core::finalize`
pub core_finalize : Sha512 → List ℕ
core_finalize h =
    let bit_len = h.total_len * 8 % 2 ^ 128 in
    let h = pad_loop 128 (core_update h (0x80 ∷ [])) in
    digest_bytes (compress_blocks h.state (copy_at 112 (to_be128 bit_len) h.buffer))

pub sha512_224 : List ℕ → List ℕ
sha512_224 msg = take 28 (core_finalize (core_update (new sha512_224_iv) msg))

pub sha512_256 : List ℕ → List ℕ
sha512_256 msg = take 32 (core_finalize (core_update (new sha512_256_iv) msg))

pub record HmacSha512Family : Type 0 where
  pub inner : Sha512
  pub opad : List ℕ
  pub out_len : ℕ

-- `kblock`: a long key is hashed.
pub key_block : List ℕ → List ℕ → ℕ → List ℕ
key_block iv key out_len =
    if ltb 128 (length key)
    then copy_at 0 (take out_len (core_finalize (core_update (new iv) key))) (replicate 128 0)
    else copy_at 0 key (replicate 128 0)

pub hmac_new : List ℕ → List ℕ → ℕ → HmacSha512Family
hmac_new iv key out_len =
    let kblock = key_block iv key out_len in
    record {
      inner = core_update (new iv) (map (λ x. bit_xor x 0x36) kblock);
      opad = map (λ x. bit_xor x 0x5C) kblock;
      out_len = out_len;
    }

pub hmac_update : HmacSha512Family → List ℕ → HmacSha512Family
hmac_update mac msg = record {
  inner = core_update mac.inner msg;
  opad = mac.opad;
  out_len = mac.out_len;
}

pub hmac_finalize : HmacSha512Family → List ℕ → List ℕ
hmac_finalize mac iv =
    let inner_digest = core_finalize mac.inner in
    core_finalize (core_update (core_update (new iv) mac.opad) (take mac.out_len inner_digest))
