-- ===== src/Chacha20.antt =====
-- src/chacha20.rs: the stream cipher, with the portable block function.
pub mod Stream
use mcu_crypto_asm.Base.{
  ℕ, zero, suc, ◌+◌, ◌-◌, ◌*◌, ◌/◌, ◌%◌, ◌^◌, ◌≡◌, List, [], ◌∷◌, ◌++◌, Bool, true, false, min,
}
use mcu_crypto_asm.Base.{
  ◌==◌, if◌then◌else◌, get_or, set, take, drop, length, replicate, u32, bit_or, bit_xor,
}
use mcu_crypto_asm.Keystream.{xor_bytes}

pub record ChaCha20 : Type 0 where
  pub state : List ℕ
  pub buffer : List ℕ
  pub offset : ℕ

-- `u8to32(&p[i..i + 4])`
pub u8to32 : List ℕ → ℕ → ℕ
u8to32 p i =
    bit_or
      (bit_or (bit_or (get_or p i 0) (get_or p (i + 1) 0 * 2 ^ 8)) (get_or p (i + 2) 0 * 2 ^ 16))
      (get_or p (i + 3) 0 * 2 ^ 24)

-- `x.rotate_left(n)`
rotate_left : ℕ → ℕ → ℕ
rotate_left n x = bit_or (u32 (x * 2 ^ n)) (x / 2 ^ (32 - n))

-- `x[a] += x[b]`, then `x[d] = (x[d] ^ x[a]).rotate_left(n)`
pub mix : ℕ → ℕ → ℕ → ℕ → List ℕ → List ℕ
mix n a b d x =
    let x = set x a (u32 (get_or x a 0 + get_or x b 0)) in
    set x d (rotate_left n (bit_xor (get_or x d 0) (get_or x a 0)))

pub quarter_round : ℕ → ℕ → ℕ → ℕ → List ℕ → List ℕ
quarter_round a b c d x = mix 7 c d b (mix 8 a b d (mix 12 c d b (mix 16 a b d x)))

pub double_round : List ℕ → List ℕ
double_round x =
    let x = quarter_round 0 4 8 12 x in
    let x = quarter_round 1 5 9 13 x in
    let x = quarter_round 2 6 10 14 x in
    let x = quarter_round 3 7 11 15 x in
    let x = quarter_round 0 5 10 15 x in
    let x = quarter_round 1 6 11 12 x in
    let x = quarter_round 2 7 8 13 x in quarter_round 3 4 9 14 x

pub rounds : ℕ → List ℕ → List ℕ
rounds zero x = x
rounds (suc n) x = rounds n (double_round x)

to_le32 : ℕ → List ℕ
to_le32 x = x % 2 ^ 8 ∷ x / 2 ^ 8 % 2 ^ 8 ∷ x / 2 ^ 16 % 2 ^ 8 ∷ x / 2 ^ 24 % 2 ^ 8 ∷ []

-- The sums of the words from the index `i` on.
pub write_out : ℕ → ℕ → List ℕ → List ℕ → List ℕ
write_out zero i x state = []
write_out (suc n) i x state =
    to_le32 (u32 (get_or x i 0 + get_or state i 0)) ++ write_out n (i + 1) x state

pub chacha20_block : List ℕ → List ℕ
chacha20_block state = write_out 16 0 (rounds 10 state) state

-- `self.state[12].wrapping_add(1)`
pub next_counter : List ℕ → List ℕ
next_counter state = set state 12 (u32 (get_or state 12 0 + 1))

pub new : List ℕ → List ℕ → ℕ → ChaCha20
new key nonce counter = record {
  state =
      0x61707865
      ∷ 0x3320646e
      ∷ 0x79622d32
      ∷ 0x6b206574
      ∷ u8to32 key 0
      ∷ u8to32 key 4
      ∷ u8to32 key 8
      ∷ u8to32 key 12
      ∷ u8to32 key 16
      ∷ u8to32 key 20
      ∷ u8to32 key 24
      ∷ u8to32 key 28
      ∷ counter
      ∷ u8to32 nonce 0
      ∷ u8to32 nonce 4
      ∷ u8to32 nonce 8
      ∷ [];
  buffer = replicate 64 0;
  offset = 64;
}

-- A new block, if the last one is used up.
pub refresh : ChaCha20 → ChaCha20
refresh s =
    if s.offset == 64
    then record { state = next_counter s.state; buffer = chacha20_block s.state; offset = 0 }
    else s

-- Each turn takes a byte or more, so that the length of the data is fuel enough.
pub apply_loop : ℕ → ChaCha20 → List ℕ → ChaCha20 × List ℕ
apply_loop zero s buf = (s, [])
apply_loop (suc fuel) s [] = (s, [])
apply_loop (suc fuel) s (x ∷ buf) =
    let s1 = refresh s in
    let n = min (64 - s1.offset) (length (x ∷ buf)) in
    let after : ChaCha20 = record {
      state = s1.state;
      buffer = s1.buffer;
      offset = s1.offset + n;
    } in
    let (last, more) = apply_loop fuel after (drop n (x ∷ buf)) in
    (last, xor_bytes (take n (x ∷ buf)) (drop s1.offset s1.buffer) ++ more)

pub apply_keystream : ChaCha20 → List ℕ → ChaCha20 × List ℕ
apply_keystream s buf = apply_loop (length buf) s buf

pub chacha20_xor : List ℕ → List ℕ → ℕ → List ℕ → List ℕ
chacha20_xor key nonce counter buf = (apply_keystream (new key nonce counter) buf).1
