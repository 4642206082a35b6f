-- ===== src/Ghash.antt =====
-- src/ghash.rs: GHASH with the portable constant-time multiplier of 32-bit words.
pub mod Size
use mcu_crypto_asm.Base.{copy_at}
use mcu_crypto_asm.Base.{
  ℕ, zero, suc, ◌+◌, ◌-◌, ◌*◌, ◌/◌, ◌%◌, ◌^◌, ◌≡◌, List, [], ◌∷◌, ◌++◌, map, Bool, true, false, min,
}
use mcu_crypto_asm.Base.{
  ltb, ◌==◌, if◌then◌else◌, get_or, set, take, drop, length, replicate, u32, u64, bit_and, bit_or,
  bit_xor,
}
use mcu_crypto_asm.Bytes.{from_be32, to_be32}

abbrev word_at : List ℕ → ℕ → ℕ
word_at b i =
    from_be32 (get_or b i 0) (get_or b (i + 1) 0) (get_or b (i + 2) 0) (get_or b (i + 3) 0)

-- A pair is the high and the low half of a 128-bit number.
xor_pair : ℕ × ℕ → ℕ × ℕ → ℕ × ℕ
xor_pair a b = (bit_xor a.0 b.0, bit_xor a.1 b.1)

-- One turn of the loop of `Htable::new`.
halve_pair : ℕ × ℕ → ℕ × ℕ
halve_pair v =
    let t = if bit_and v.1 1 == 0 then 0 else 0xe100000000000000 in
    (bit_xor (v.0 / 2) t, bit_or (u64 (bit_and v.0 1 * 2 ^ 63)) (v.1 / 2))

pair_words : ℕ × ℕ → List ℕ
pair_words v = u32 v.1 ∷ v.1 / 2 ^ 32 ∷ u32 v.0 ∷ v.0 / 2 ^ 32 ∷ []

pub record Htable : Type 0 where
  pub words : List (List ℕ)
  pub h_bytes : List ℕ

pub htable_new : List ℕ → Htable
htable_new h =
    let v8 : ℕ × ℕ = (word_at h 0 * 2 ^ 32 + word_at h 4, word_at h 8 * 2 ^ 32 + word_at h 12) in
    let v4 = halve_pair v8 in
    let v2 = halve_pair v4 in
    let v1 = halve_pair v2 in
    let v3 = xor_pair v1 v2 in
    let low = (0, 0) ∷ v1 ∷ v2 ∷ v3 ∷ v4 ∷ xor_pair v4 v1 ∷ xor_pair v4 v2 ∷ xor_pair v4 v3 ∷ [] in
    record { words = map pair_words (low ++ map (xor_pair v8) low); h_bytes = h }

bmul_row : (a0 a1 a2 a3 b0 b1 b2 b3 : ℕ) → ℕ
bmul_row a0 a1 a2 a3 b0 b1 b2 b3 =
    bit_xor (bit_xor (bit_xor (u32 (a0 * b0)) (u32 (a1 * b1))) (u32 (a2 * b2))) (u32 (a3 * b3))

pub bmul32 : ℕ → ℕ → ℕ
bmul32 x y =
    let x0 = bit_and x 0x11111111 in
    let x1 = bit_and x 0x22222222 in
    let x2 = bit_and x 0x44444444 in
    let x3 = bit_and x 0x88888888 in
    let y0 = bit_and y 0x11111111 in
    let y1 = bit_and y 0x22222222 in
    let y2 = bit_and y 0x44444444 in
    let y3 = bit_and y 0x88888888 in
    let z0 = bmul_row x0 x1 x2 x3 y0 y3 y2 y1 in
    let z1 = bmul_row x0 x1 x2 x3 y1 y0 y3 y2 in
    let z2 = bmul_row x0 x1 x2 x3 y2 y1 y0 y3 in
    let z3 = bmul_row x0 x1 x2 x3 y3 y2 y1 y0 in
    bit_or (bit_or (bit_or (bit_and z0 0x11111111) (bit_and z1 0x22222222)) (bit_and z2 0x44444444))
      (bit_and z3 0x88888888)

swap_bits : ℕ → ℕ → ℕ → ℕ
swap_bits n mask x = bit_or (u32 (bit_and x mask * 2 ^ n)) (bit_and (x / 2 ^ n) mask)

pub rev32 : ℕ → ℕ
rev32 x =
    let x = swap_bits 1 0x55555555 x in
    let x = swap_bits 2 0x33333333 x in
    let x = swap_bits 4 0x0F0F0F0F x in
    let x = swap_bits 8 0x00FF00FF x in bit_or (x / 2 ^ 16) (u32 (x * 2 ^ 16))

-- The sums of four words that Karatsuba's method multiplies.
karatsuba : List ℕ → List ℕ
karatsuba w =
    let w0 = get_or w 0 0 in
    let w1 = get_or w 1 0 in
    let w2 = get_or w 2 0 in
    let w3 = get_or w 3 0 in
    let s6 = bit_xor w0 w2 in
    let s7 = bit_xor w1 w3 in
    w0 ∷ w1 ∷ w2 ∷ w3 ∷ bit_xor w0 w1 ∷ bit_xor w2 w3 ∷ s6 ∷ s7 ∷ bit_xor s6 s7 ∷ []

-- The arrays `a` and `b`.
spread : List ℕ → List ℕ
spread w = karatsuba w ++ karatsuba (map rev32 w)

products : List ℕ → List ℕ → List ℕ
products (x ∷ a) (y ∷ b) = bmul32 x y ∷ products a b
products _ _ = []

-- The products of one half, with the middle terms made up.
combine : List ℕ → List ℕ
combine c =
    let at : ℕ → ℕ = λ i. get_or c i 0 in
    at 0
    ∷ at 1
    ∷ at 2
    ∷ at 3
    ∷ bit_xor (at 4) (bit_xor (at 0) (at 1))
    ∷ bit_xor (at 5) (bit_xor (at 2) (at 3))
    ∷ at 6
    ∷ at 7
    ∷ bit_xor (at 8) (bit_xor (at 6) (at 7))
    ∷ []

xor_all : List ℕ → ℕ
xor_all [] = 0
xor_all (x ∷ []) = x
xor_all (x ∷ y ∷ r) = xor_all (bit_xor x y ∷ r)

-- `d0` to `d7`, from the array `c`.
digits_of : List ℕ → List ℕ
digits_of c =
    let lo = combine (take 9 c) in
    let hi = combine (drop 9 c) in
    let l : ℕ → ℕ = λ i. get_or lo i 0 in
    let h : ℕ → ℕ = λ i. get_or hi i 0 in
    l 0
    ∷ bit_xor (l 4) (rev32 (h 0) / 2)
    ∷ xor_all (l 1 ∷ l 0 ∷ l 2 ∷ l 6 ∷ rev32 (h 4) / 2 ∷ [])
    ∷ xor_all (l 4 ∷ l 5 ∷ l 8 ∷ rev32 (xor_all (h 1 ∷ h 0 ∷ h 2 ∷ h 6 ∷ [])) / 2 ∷ [])
    ∷ xor_all (l 2 ∷ l 1 ∷ l 3 ∷ l 7 ∷ rev32 (xor_all (h 4 ∷ h 5 ∷ h 8 ∷ [])) / 2 ∷ [])
    ∷ bit_xor (l 5) (rev32 (xor_all (h 2 ∷ h 1 ∷ h 3 ∷ h 7 ∷ [])) / 2)
    ∷ bit_xor (l 3) (rev32 (h 5) / 2)
    ∷ rev32 (h 3) / 2
    ∷ []

-- `zw`: the digits shifted left by one bit.
shift_left : ℕ → List ℕ → List ℕ
shift_left below [] = []
shift_left below (d ∷ ds) = bit_or (u32 (d * 2)) (below / 2 ^ 31) ∷ shift_left d ds

-- One turn of the reduction: `zw[i]` is folded into `zw[i + 4]` and `zw[i + 3]`.
fold_word : ℕ → List ℕ → List ℕ
fold_word i zw =
    let lw = get_or zw i 0 in
    let zw =
      set zw (i + 4)
        (bit_xor (get_or zw (i + 4) 0) (xor_all (lw ∷ lw / 2 ∷ lw / 2 ^ 2 ∷ lw / 2 ^ 7 ∷ []))) in
    set zw (i + 3) (
      bit_xor (get_or zw (i + 3) 0)
        (xor_all (u32 (lw * 2 ^ 31) ∷ u32 (lw * 2 ^ 30) ∷ u32 (lw * 2 ^ 25) ∷ [])))

multiply : List ℕ → List ℕ → List ℕ
multiply b yw =
    let zw = shift_left 0 (digits_of (products (spread yw) b)) in
    drop 4 (fold_word 3 (fold_word 2 (fold_word 1 (fold_word 0 zw))))

-- The four words of a block, the last one first.
block_words : List ℕ → List ℕ
block_words y = word_at y 12 ∷ word_at y 8 ∷ word_at y 4 ∷ word_at y 0 ∷ []

xor_words : List ℕ → List ℕ → List ℕ
xor_words (x ∷ a) (y ∷ b) = bit_xor x y ∷ xor_words a b
xor_words _ _ = []

-- `data.chunks_exact(16)`, as many chunks as the first argument says.
ctmul_loop : ℕ → List ℕ → List ℕ → List ℕ → List ℕ
ctmul_loop zero b yw msg = yw
ctmul_loop (suc n) b yw msg =
    ctmul_loop n b (multiply b (xor_words yw (block_words (take 16 msg)))) (drop 16 msg)

pub ghash_ctmul32 : List ℕ → List ℕ → List ℕ → List ℕ
ghash_ctmul32 y h msg =
    let yw = ctmul_loop (length msg / 16) (spread (block_words h)) (block_words y) msg in
    to_be32 (get_or yw 3 0)
    ++ to_be32 (get_or yw 2 0)
    ++ to_be32 (get_or yw 1 0)
    ++ to_be32 (get_or yw 0 0)

pub compress_blocks : List ℕ → Htable → List ℕ → List ℕ
compress_blocks state htable msg =
    let num_blocks = length msg / 16 in
    if num_blocks == 0
    then state
    else ghash_ctmul32 state htable.h_bytes (take (num_blocks * 16) msg)

pub gmult : List ℕ → Htable → List ℕ
gmult xi htable = ghash_ctmul32 xi htable.h_bytes (replicate 16 0)

pub record Ghash : Type 0 where
  pub htable : Htable
  pub state : List ℕ
  pub buffer : List ℕ
  pub buf_len : ℕ

pub from_htable : Htable → Ghash
from_htable h = record { htable = h; state = replicate 16 0; buffer = replicate 16 0; buf_len = 0 }

-- `compress_blocks` on as many whole blocks as there are.
pub compress_bulk : Ghash → List ℕ → Ghash
compress_bulk g msg =
    let num_blocks = length msg / 16 in
    if ltb 0 num_blocks
    then record {
      htable = g.htable;
      state = compress_blocks g.state g.htable (take (num_blocks * 16) msg);
      buffer = g.buffer;
      buf_len = g.buf_len;
    }
    else g

-- A started buffer takes bytes first, and is compressed when it is full.
pub fill_buffer : Ghash → List ℕ → Ghash
fill_buffer g part =
    let buffer = copy_at g.buf_len part g.buffer in
    let buf_len = g.buf_len + length part in
    if buf_len == 16
    then record {
      htable = g.htable;
      state = compress_blocks g.state g.htable buffer;
      buffer = buffer;
      buf_len = 0;
    }
    else record { htable = g.htable; state = g.state; buffer = buffer; buf_len = buf_len }

pub keep_rest : Ghash → List ℕ → Ghash
keep_rest g [] = g
keep_rest g (x ∷ rest) = record {
  htable = g.htable;
  state = g.state;
  buffer = copy_at 0 (x ∷ rest) g.buffer;
  buf_len = length (x ∷ rest);
}

pub update : Ghash → List ℕ → Ghash
update g msg =
    let taken = if ltb 0 g.buf_len then min (16 - g.buf_len) (length msg) else 0 in
    let g = if ltb 0 g.buf_len then fill_buffer g (take taken msg) else g in
    let msg = drop taken msg in keep_rest (compress_bulk g msg) (drop (length msg / 16 * 16) msg)

pub update_block : Ghash → List ℕ → Ghash
update_block g block = record {
  htable = g.htable;
  state = compress_blocks g.state g.htable block;
  buffer = g.buffer;
  buf_len = g.buf_len;
}

-- The unused part of the buffer is cleared before the last block.
pub finalize : Ghash → List ℕ
finalize g =
    if ltb 0 g.buf_len
    then compress_blocks g.state g.htable (take g.buf_len g.buffer ++ replicate (16 - g.buf_len) 0)
    else g.state
