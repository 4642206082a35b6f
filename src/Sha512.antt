-- ===== src/Sha512.antt =====
-- src/sha512.rs: the SHA-512 family with the portable compression, and HMAC over it. The state is a list
-- of eight 64-bit words.
pub mod Constants
pub mod Stream
pub mod Core
use mcu_crypto_asm.Base.{
  ℕ, zero, suc, ◌+◌, ◌-◌, ◌*◌, ◌/◌, ◌%◌, ◌^◌, ◌≡◌, List, [], ◌∷◌, ◌++◌, Bool, true, false, min,
}
use mcu_crypto_asm.Base.{
  ltb, leb, not, ◌==◌, if◌then◌else◌, get_or, set, take, drop, length, replicate, map, u64, bit_and,
  bit_or, bit_xor, copy_at,
}
use Constants.{sha512_iv, sha384_iv, sha512_224_iv, sha512_256_iv, k512}

-- `u64::from_be_bytes` of the bytes from the index `i` on, and `u64::to_be_bytes`
pub from_be64 : List ℕ → ℕ → ℕ
from_be64 b i =
    get_or b i 0 * 2 ^ 56
    + get_or b (i + 1) 0 * 2 ^ 48
    + get_or b (i + 2) 0 * 2 ^ 40
    + get_or b (i + 3) 0 * 2 ^ 32
    + get_or b (i + 4) 0 * 2 ^ 24
    + get_or b (i + 5) 0 * 2 ^ 16
    + get_or b (i + 6) 0 * 2 ^ 8
    + get_or b (i + 7) 0

unfoldable pub to_be64 : ℕ → List ℕ
to_be64 x =
    x / 2 ^ 56 % 2 ^ 8
    ∷ x / 2 ^ 48 % 2 ^ 8
    ∷ x / 2 ^ 40 % 2 ^ 8
    ∷ x / 2 ^ 32 % 2 ^ 8
    ∷ x / 2 ^ 24 % 2 ^ 8
    ∷ x / 2 ^ 16 % 2 ^ 8
    ∷ x / 2 ^ 8 % 2 ^ 8
    ∷ x % 2 ^ 8
    ∷ []

-- `x.rotate_right(n)`
rotate_right : ℕ → ℕ → ℕ
rotate_right n x = bit_or (x / 2 ^ n) (u64 (x * 2 ^ (64 - n)))

ch : ℕ → ℕ → ℕ → ℕ
ch x y z = bit_xor (bit_and (bit_xor y z) x) z

maj : ℕ → ℕ → ℕ → ℕ
maj x y z = bit_or (bit_and x y) (bit_and z (bit_or x y))

sigma0 : ℕ → ℕ
sigma0 x = bit_xor (bit_xor (rotate_right 28 x) (rotate_right 34 x)) (rotate_right 39 x)

sigma1 : ℕ → ℕ
sigma1 x = bit_xor (bit_xor (rotate_right 14 x) (rotate_right 18 x)) (rotate_right 41 x)

s0 : ℕ → ℕ
s0 x = bit_xor (bit_xor (rotate_right 1 x) (rotate_right 8 x)) (x / 2 ^ 7)

s1 : ℕ → ℕ
s1 x = bit_xor (bit_xor (rotate_right 19 x) (rotate_right 61 x)) (x / 2 ^ 6)

-- The words of a block from the index `i` on.
block_words : ℕ → ℕ → List ℕ → List ℕ
block_words zero i block = []
block_words (suc n) i block = from_be64 block (i * 8) ∷ block_words n (i + 1) block

-- The schedule `w`, in the order of use: `window` is the sixteen words before the next one.
schedule : ℕ → List ℕ → List ℕ
schedule zero window = window
schedule (suc n) window =
    let w = u64 (
      u64 (u64 (s1 (get_or window 14 0) + get_or window 9 0) + s0 (get_or window 1 0))
      + get_or window 0 0) in
    get_or window 0 0 ∷ schedule n (drop 1 window ++ (w ∷ []))

-- One turn on `a` to `h`.
turn : ℕ → ℕ → List ℕ → List ℕ
turn k w (a ∷ b ∷ c ∷ d ∷ e ∷ f ∷ g ∷ h ∷ []) =
    let t1 = u64 (u64 (u64 (u64 (h + sigma1 e) + ch e f g) + k) + w) in
    let t2 = u64 (sigma0 a + maj a b c) in u64 (t1 + t2) ∷ a ∷ b ∷ c ∷ u64 (d + t1) ∷ e ∷ f ∷ g ∷ []
turn k w v = v

turns : List ℕ → List ℕ → List ℕ → List ℕ
turns (k ∷ ks) (w ∷ ws) v = turns ks ws (turn k w v)
turns _ _ v = v

add_words : List ℕ → List ℕ → List ℕ
add_words (x ∷ a) (y ∷ b) = u64 (x + y) ∷ add_words a b
add_words _ _ = []

-- The body of the loop of `portable_compress_blocks`.
pub compress_block : List ℕ → List ℕ → List ℕ
compress_block state block =
    add_words state (turns k512 (schedule 64 (block_words 16 0 block)) state)

-- `while data.len() >= 128`, as many turns as the first argument says.
pub portable_loop : ℕ → List ℕ → List ℕ → List ℕ
portable_loop zero state msg = state
portable_loop (suc n) state msg =
    portable_loop n (compress_block state (take 128 msg)) (drop 128 msg)

pub portable_compress_blocks : List ℕ → List ℕ → List ℕ
portable_compress_blocks state msg = portable_loop (length msg / 128) state msg

pub compress_blocks : List ℕ → List ℕ → List ℕ
compress_blocks state msg =
    if length msg / 128 == 0 then state else portable_compress_blocks state msg

-- `Sha512`, `Sha384` and `Sha512Core` have the same fields.
pub record Sha512 : Type 0 where
  pub state : List ℕ
  pub buffer : List ℕ
  pub buf_len : ℕ
  pub total_len : ℕ

pub new : List ℕ → Sha512
new iv = record { state = iv; buffer = replicate 128 0; buf_len = 0; total_len = 0 }

-- The started buffer.
pub fill_buffer : Sha512 → List ℕ → Sha512
fill_buffer h part =
    let buffer = copy_at h.buf_len part h.buffer in
    if h.buf_len + length part == 128
    then record {
      state = compress_blocks h.state buffer;
      buffer = buffer;
      buf_len = 0;
      total_len = h.total_len;
    }
    else record {
      state = h.state;
      buffer = buffer;
      buf_len = h.buf_len + length part;
      total_len = h.total_len;
    }

abbrev pub with_state : Sha512 → List ℕ → Sha512
with_state h state = record {
  state = state;
  buffer = h.buffer;
  buf_len = h.buf_len;
  total_len = h.total_len;
}

pub compress_bulk : Sha512 → List ℕ → Sha512
compress_bulk h msg =
    let bulk_blocks = length msg / 128 in
    if ltb 0 bulk_blocks
    then with_state h (compress_blocks h.state (take (bulk_blocks * 128) msg))
    else h

-- The remaining bytes.
pub keep_rest : Sha512 → List ℕ → Sha512
keep_rest h [] = h
keep_rest h (x ∷ rest) = record {
  state = h.state;
  buffer = copy_at 0 (x ∷ rest) h.buffer;
  buf_len = length (x ∷ rest);
  total_len = h.total_len;
}

pub count_bytes : Sha512 → ℕ → Sha512
count_bytes h n = record {
  state = h.state;
  buffer = h.buffer;
  buf_len = h.buf_len;
  total_len = (h.total_len + n) % 2 ^ 128;
}

-- `Sha512::update`
pub update : Sha512 → List ℕ → Sha512
update h msg =
    let h = count_bytes h (length msg) in
    let taken = if ltb 0 h.buf_len then min (128 - h.buf_len) (length msg) else 0 in
    let h = if ltb 0 h.buf_len then fill_buffer h (take taken msg) else h in
    let msg = drop taken msg in keep_rest (compress_bulk h msg) (drop (length msg / 128 * 128) msg)

pub to_be128 : ℕ → List ℕ
to_be128 x = to_be64 (x / 2 ^ 64) ++ to_be64 (u64 x)

pub digest_bytes : List ℕ → List ℕ
digest_bytes [] = []
digest_bytes (w ∷ state) = to_be64 w ++ digest_bytes state

-- The last block, with the length: the first 112 bytes are given.
pub last_block : List ℕ → List ℕ → ℕ → List ℕ
last_block state front bit_len = digest_bytes (compress_blocks state (front ++ to_be128 bit_len))

-- `Sha512::finalize`; `total_len * 8` is taken modulo `2 ^ 128`.
pub finalize : Sha512 → List ℕ
finalize h =
    let bit_len = h.total_len * 8 % 2 ^ 128 in
    let marked = take h.buf_len h.buffer ++ (0x80 ∷ []) in
    let buf_len = h.buf_len + 1 in
    if ltb 112 buf_len
    then last_block (compress_blocks h.state (marked ++ replicate (128 - buf_len) 0))
        (replicate 112 0) bit_len
    else last_block h.state (marked ++ replicate (112 - buf_len) 0) bit_len

pub sha512 : List ℕ → List ℕ
sha512 msg = finalize (update (new sha512_iv) msg)

-- `Sha384` forwards to `Sha512`.
pub sha384 : List ℕ → List ℕ
sha384 msg = take 48 (finalize (update (new sha384_iv) msg))
