-- ===== src/Aes/Ctr.antt =====
-- src/aes.rs, CTR: the streaming cipher `AesCtr`.
pub mod Stream
use mcu_crypto_asm.Base.{
  ℕ, zero, suc, ◌+◌, ◌-◌, ◌*◌, ◌/◌, ◌≡◌, List, [], ◌∷◌, ◌++◌, Bool, true, false, min,
}
use mcu_crypto_asm.Base.{leb, ◌==◌, not, if◌then◌else◌, take, drop, length, replicate}
use mcu_crypto_asm.Keystream.{xor_bytes}
use mcu_crypto_asm.Aes.{AesEncrypt, inc128, ctr_apply}

-- The cipher is an argument of the operations.
pub record AesCtr : Type 0 where
  pub counter : List ℕ
  pub keystream : List ℕ
  pub pos : ℕ

unfoldable pub new : List ℕ → AesCtr
new iv = record { counter = iv; keystream = replicate 16 0; pos = 16 }

-- The state, the bytes put out, and the data that is left.
pub record Turn : Type 0 where
  pub state : AesCtr
  pub out : List ℕ
  pub rest : List ℕ

module _ (aes : AesEncrypt) where
  -- A fresh block, if there is data for it.
  pub refill : AesCtr → List ℕ → List ℕ → Turn
  refill s out [] = record { state = s; out = out; rest = [] }
  refill s out (x ∷ rest) = record {
    state = record { counter = inc128 s.counter; keystream = aes.encrypt_block s.counter; pos = 0 };
    out = out;
    rest = x ∷ rest;
  }

  -- The whole blocks at once, if two or more are to come, and then a fresh block.
  pub prepare : AesCtr → List ℕ → Turn
  prepare s buf =
      let bulk = length buf / 16 * 16 in
      let (counter, out) = ctr_apply aes inc128 s.counter (take bulk buf) in
      if not (s.pos == 16)
      then record { state = s; out = []; rest = buf }
      else if leb 32 (length buf)
      then refill (record { counter = counter; keystream = s.keystream; pos = s.pos }) out
          (drop bulk buf)
      else refill s [] buf

  -- Each turn takes a byte or more, so that the length of the data is fuel enough.
  pub apply_loop : ℕ → AesCtr → List ℕ → AesCtr × List ℕ
  apply_loop zero s buf = (s, [])
  apply_loop (suc fuel) s [] = (s, [])
  apply_loop (suc fuel) s (x ∷ buf) =
      let turn = prepare s (x ∷ buf) in
      let n = min (16 - turn.state.pos) (length turn.rest) in
      let after : AesCtr = record {
        counter = turn.state.counter;
        keystream = turn.state.keystream;
        pos = turn.state.pos + n;
      } in
      let (last, more) = apply_loop fuel after (drop n turn.rest) in
      (
        last,
        turn.out
            ++ (xor_bytes (take n turn.rest) (drop turn.state.pos turn.state.keystream) ++ more),
      )

  pub apply_keystream : AesCtr → List ℕ → AesCtr × List ℕ
  apply_keystream s buf = apply_loop (length buf) s buf
