-- ===== src/Poly1305.antt =====
-- src/poly1305.rs: the one-time authenticator, with the portable multiplication.
pub mod Multiply
pub mod Block
pub mod Message
pub mod Stream
pub mod Finish
pub mod Tag
pub mod Clamp
use mcu_crypto_asm.Base.{
  ℕ, zero, suc, ◌+◌, ◌-◌, ◌*◌, ◌/◌, ◌%◌, ◌^◌, ◌≡◌, List, [], ◌∷◌, ◌++◌, Bool, true, false,
}
use mcu_crypto_asm.Base.{
  ltb, ◌==◌, not, if◌then◌else◌, get_or, take, drop, length, replicate, u32, u64, bit_and, bit_or,
  wrapping_sub32, ones32,
}

-- Five limbs of 26 bits, the lowest first.
pub record Five : Type 0 where
  pub x0 : ℕ
  pub x1 : ℕ
  pub x2 : ℕ
  pub x3 : ℕ
  pub x4 : ℕ

pub record Poly1305 : Type 0 where
  pub r : Five
  pub s : List ℕ
  pub h : Five
  pub pad : List ℕ
  pub leftover : ℕ
  pub buffer : List ℕ

-- `u8to32(&p[i..i + 4])`
pub u8to32 : List ℕ → ℕ → ℕ
u8to32 p i =
    bit_or
      (bit_or (bit_or (get_or p i 0) (get_or p (i + 1) 0 * 2 ^ 8)) (get_or p (i + 2) 0 * 2 ^ 16))
      (get_or p (i + 3) 0 * 2 ^ 24)

pub new : List ℕ → Poly1305
new key =
    let r : Five = record {
      x0 = bit_and (u8to32 key 0) 0x3ffffff;
      x1 = bit_and (u8to32 key 3 / 2 ^ 2) 0x3ffff03;
      x2 = bit_and (u8to32 key 6 / 2 ^ 4) 0x3ffc0ff;
      x3 = bit_and (u8to32 key 9 / 2 ^ 6) 0x3f03fff;
      x4 = bit_and (u8to32 key 12 / 2 ^ 8) 0x00fffff;
    } in
    record {
      r = r;
      s = u32 (r.x1 * 5) ∷ u32 (r.x2 * 5) ∷ u32 (r.x3 * 5) ∷ u32 (r.x4 * 5) ∷ [];
      h = record { x0 = 0; x1 = 0; x2 = 0; x3 = 0; x4 = 0 };
      pad = u8to32 key 16 ∷ u8to32 key 20 ∷ u8to32 key 24 ∷ u8to32 key 28 ∷ [];
      leftover = 0;
      buffer = replicate 16 0;
    }

-- The block's limbs are added to the accumulator.
pub add_block : Five → List ℕ → ℕ → Five
add_block h block hibit = record {
  x0 = u32 (h.x0 + bit_and (u8to32 block 0) 0x3ffffff);
  x1 = u32 (h.x1 + bit_and (u8to32 block 3 / 2 ^ 2) 0x3ffffff);
  x2 = u32 (h.x2 + bit_and (u8to32 block 6 / 2 ^ 4) 0x3ffffff);
  x3 = u32 (h.x3 + bit_and (u8to32 block 9 / 2 ^ 6) 0x3ffffff);
  x4 = u32 (h.x4 + bit_or (u8to32 block 12 / 2 ^ 8) hibit);
}

abbrev pub low26 : ℕ → ℕ
low26 d = bit_and (u32 d) 0x3ffffff

-- The carries, from the five sums of products.
pub carry_chain : ℕ → ℕ → ℕ → ℕ → ℕ → Five
carry_chain d0 d1 d2 d3 d4 =
    let d1 = u64 (d1 + u32 (d0 / 2 ^ 26)) in
    let d2 = u64 (d2 + u32 (d1 / 2 ^ 26)) in
    let d3 = u64 (d3 + u32 (d2 / 2 ^ 26)) in
    let d4 = u64 (d4 + u32 (d3 / 2 ^ 26)) in
    let h0 = u32 (low26 d0 + u32 (u32 (d4 / 2 ^ 26) * 5)) in
    record {
      x0 = bit_and h0 0x3ffffff;
      x1 = u32 (low26 d1 + h0 / 2 ^ 26);
      x2 = low26 d2;
      x3 = low26 d3;
      x4 = low26 d4;
    }

pub mul_reduce : Five → Five → List ℕ → Five
mul_reduce h r s =
    let s0 = get_or s 0 0 in
    let s1 = get_or s 1 0 in
    let s2 = get_or s 2 0 in
    let s3 = get_or s 3 0 in
    carry_chain (u64 (h.x0 * r.x0 + h.x1 * s3 + h.x2 * s2 + h.x3 * s1 + h.x4 * s0))
      (u64 (h.x0 * r.x1 + h.x1 * r.x0 + h.x2 * s3 + h.x3 * s2 + h.x4 * s1))
      (u64 (h.x0 * r.x2 + h.x1 * r.x1 + h.x2 * r.x0 + h.x3 * s3 + h.x4 * s2))
      (u64 (h.x0 * r.x3 + h.x1 * r.x2 + h.x2 * r.x1 + h.x3 * r.x0 + h.x4 * s3))
      (u64 (h.x0 * r.x4 + h.x1 * r.x3 + h.x2 * r.x2 + h.x3 * r.x1 + h.x4 * r.x0))

abbrev pub with_h : Poly1305 → Five → Poly1305
with_h p h = record {
  r = p.r;
  s = p.s;
  h = h;
  pad = p.pad;
  leftover = p.leftover;
  buffer = p.buffer;
}

pub process_block : Poly1305 → List ℕ → ℕ → Poly1305
process_block p block hibit = with_h p (mul_reduce (add_block p.h block hibit) p.r p.s)

-- `while m.len() >= 16`, as many turns as the first argument says.
pub block_loop : ℕ → Poly1305 → List ℕ → Poly1305
block_loop zero p m = p
block_loop (suc n) p m = block_loop n (process_block p (take 16 m) (2 ^ 24)) (drop 16 m)

abbrev with_buffer : Poly1305 → List ℕ → ℕ → Poly1305
with_buffer p buffer leftover = record {
  r = p.r;
  s = p.s;
  h = p.h;
  pad = p.pad;
  leftover = leftover;
  buffer = buffer;
}

pub keep_rest : Poly1305 → List ℕ → Poly1305
keep_rest p [] = p
keep_rest p (x ∷ m) = with_buffer p (x ∷ m ++ drop (length (x ∷ m)) p.buffer) (length (x ∷ m))

pub update_blocks : Poly1305 → List ℕ → Poly1305
update_blocks p m =
    let blocks = length m / 16 in keep_rest (block_loop blocks p m) (drop (16 * blocks) m)

pub update : Poly1305 → List ℕ → Poly1305
update p m =
    let want = 16 - p.leftover in
    let held = take p.leftover p.buffer in
    if not (ltb 0 p.leftover)
    then update_blocks p m
    else if ltb (length m) want
    then with_buffer p (held ++ m ++ drop (p.leftover + length m) p.buffer) (p.leftover + length m)
    else let block = held ++ take want m in
      update_blocks (process_block (with_buffer p block 0) block (2 ^ 24)) (drop want m)

-- The last, partial block, with a one after it.
pub finish_block : Poly1305 → Poly1305
finish_block p =
    if ltb 0 p.leftover
    then process_block p (take p.leftover p.buffer ++ (1 ∷ replicate (15 - p.leftover) 0)) 0
    else p

-- The full carry of `finish`.
pub full_carry : Five → Five
full_carry h =
    let h2 = u32 (h.x2 + h.x1 / 2 ^ 26) in
    let h3 = u32 (h.x3 + h2 / 2 ^ 26) in
    let h4 = u32 (h.x4 + h3 / 2 ^ 26) in
    let h0 = u32 (h.x0 + u32 (h4 / 2 ^ 26 * 5)) in
    record {
      x0 = bit_and h0 0x3ffffff;
      x1 = u32 (bit_and h.x1 0x3ffffff + h0 / 2 ^ 26);
      x2 = bit_and h2 0x3ffffff;
      x3 = bit_and h3 0x3ffffff;
      x4 = bit_and h4 0x3ffffff;
    }

-- `g`, which is `h - p`, if that is not negative, and `h` otherwise.
pub select_reduced : Five → Five
select_reduced h =
    let g0 = u32 (h.x0 + 5) in
    let g1 = u32 (h.x1 + g0 / 2 ^ 26) in
    let g2 = u32 (h.x2 + g1 / 2 ^ 26) in
    let g3 = u32 (h.x3 + g2 / 2 ^ 26) in
    let g4 = wrapping_sub32 (u32 (h.x4 + g3 / 2 ^ 26)) (2 ^ 26) in
    let mask = wrapping_sub32 (g4 / 2 ^ 31) 1 in
    let not_mask = ones32 - mask in
    record {
      x0 = bit_or (bit_and h.x0 not_mask) (bit_and (bit_and g0 0x3ffffff) mask);
      x1 = bit_or (bit_and h.x1 not_mask) (bit_and (bit_and g1 0x3ffffff) mask);
      x2 = bit_or (bit_and h.x2 not_mask) (bit_and (bit_and g2 0x3ffffff) mask);
      x3 = bit_or (bit_and h.x3 not_mask) (bit_and (bit_and g3 0x3ffffff) mask);
      x4 = bit_or (bit_and h.x4 not_mask) (bit_and g4 mask);
    }

to_le32 : ℕ → List ℕ
to_le32 x = x % 2 ^ 8 ∷ x / 2 ^ 8 % 2 ^ 8 ∷ x / 2 ^ 16 % 2 ^ 8 ∷ x / 2 ^ 24 % 2 ^ 8 ∷ []

-- The limbs as four words, with the pad added modulo `2 ^ 128`.
pub add_pad : Five → List ℕ → List ℕ
add_pad h pad =
    let f0 = bit_or h.x0 (u32 (h.x1 * 2 ^ 26)) + get_or pad 0 0 in
    let f1 = bit_or (h.x1 / 2 ^ 6) (u32 (h.x2 * 2 ^ 20)) + get_or pad 1 0 + f0 / 2 ^ 32 in
    let f2 = bit_or (h.x2 / 2 ^ 12) (u32 (h.x3 * 2 ^ 14)) + get_or pad 2 0 + f1 / 2 ^ 32 in
    let f3 = bit_or (h.x3 / 2 ^ 18) (u32 (h.x4 * 2 ^ 8)) + get_or pad 3 0 + f2 / 2 ^ 32 in
    to_le32 (u32 f0) ++ to_le32 (u32 f1) ++ to_le32 (u32 f2) ++ to_le32 (u32 f3)

pub finish : Poly1305 → List ℕ
finish p = add_pad (select_reduced (full_carry (finish_block p).h)) p.pad

pub poly1305_auth : List ℕ → List ℕ → List ℕ
poly1305_auth key msg = finish (update (new key) msg)
