-- ===== src/Aes/Cmac.antt =====
-- src/aes.rs, CMAC: the streaming state with its doubled key.
pub mod Stream
use mcu_crypto_asm.Base.{
  ℕ, zero, suc, ◌+◌, ◌-◌, ◌*◌, ◌/◌, ◌^◌, List, [], ◌∷◌, ◌++◌, Bool, true, false, not, min,
}
use mcu_crypto_asm.Base.{
  ◌==◌, if◌then◌else◌, get_or, set, take, drop, length, replicate, u8, bit_or, bit_xor, copy_at,
}
use mcu_crypto_asm.Keystream.{xor_bytes}
use mcu_crypto_asm.Aes.{AesEncrypt, zero_block}

-- The bytes shifted left by one bit.
double_bytes : List ℕ → List ℕ
double_bytes [] = []
double_bytes (x ∷ []) = u8 (x * 2) ∷ []
double_bytes (x ∷ y ∷ blk) = bit_or (u8 (x * 2)) (y / 2 ^ 7) ∷ double_bytes (y ∷ blk)

pub cmac_double : List ℕ → List ℕ
cmac_double blk =
    let carry = get_or blk 0 0 / 2 ^ 7 in
    let out = double_bytes blk in
    if not (carry == 0) then set out 15 (bit_xor (get_or out 15 0) 0x87) else out

pub record CmacState : Type 0 where
  pub state : List ℕ
  pub buffer : List ℕ
  pub buf_len : ℕ
  pub k1 : List ℕ

abbrev pub with_buffer : CmacState → List ℕ → List ℕ → ℕ → CmacState
with_buffer s state buffer buf_len = record {
  state = state;
  buffer = buffer;
  buf_len = buf_len;
  k1 = s.k1;
}

pub reset : CmacState → CmacState
reset s = with_buffer s zero_block s.buffer 0

module _ (aes : AesEncrypt) where
  pub new : CmacState
  new = record {
    state = zero_block;
    buffer = zero_block;
    buf_len = 0;
    k1 = cmac_double (aes.encrypt_block zero_block);
  }

  -- The new `state`.
  pub mac_feed : List ℕ → List ℕ → List ℕ
  mac_feed state blk = aes.encrypt_block (xor_bytes blk state)

  -- `if self.buf_len == 16`, when there is data.
  pub flush : CmacState → CmacState
  flush s = if s.buf_len == 16 then with_buffer s (mac_feed s.state s.buffer) s.buffer 0 else s

  -- `loop`, which ends when no data is left, with a bound on the turns.
  pub update_loop : ℕ → CmacState → List ℕ → CmacState
  update_loop zero s msg = s
  update_loop (suc turns) s [] = s
  update_loop (suc turns) s (x ∷ msg) =
      let s = flush s in
      let n = min (16 - s.buf_len) (length (x ∷ msg)) in
      update_loop turns
        (with_buffer s s.state (copy_at s.buf_len (take n (x ∷ msg)) s.buffer) (s.buf_len + n))
        (drop n (x ∷ msg))

  pub update : CmacState → List ℕ → CmacState
  update s msg = update_loop (length msg) s msg

  pub finalize : CmacState → List ℕ
  finalize s =
      let k2 = cmac_double s.k1 in
      let whole = aes.encrypt_block (xor_bytes (xor_bytes s.buffer s.k1) s.state) in
      let b = take s.buf_len s.buffer ++ (0x80 ∷ replicate (15 - s.buf_len) 0) in
      if s.buf_len == 16 then whole else aes.encrypt_block (xor_bytes (xor_bytes b k2) s.state)
