-- ===== src/Poly1305/Block.antt =====
-- One block: it is added to the accumulator, which is multiplied by the key.
use mcu_crypto_asm.Base.{
  zero, suc, get_or, bit_or, bit_or_comm, bit_or_sum, bit_or-zero, ◌⊎◌, inl, inr, Cong,
  Cong-add_mul,
}
use mcu_crypto_asm.Bytes.{IsBytes}
use mcu_crypto_asm.Poly1305.{Poly1305, u8to32, add_block, process_block}
use mcu_crypto_asm.Base.{
  ℕ, ◌+◌, ◌-◌, ◌*◌, ◌/◌, ◌%◌, ◌^◌, ◌<◌, ◌≤◌, ◌≡◌, ap, sym, ◌∙◌, arith, List, [], ◌∷◌,
}
use mcu_crypto_asm.Base.{bit_and_mask}
use mcu_crypto_asm.Poly1305.{Five, mul_reduce}
use mcu_crypto_asm.Poly1305.Multiply.{number, IsReduced, IsLoaded, IsKey, mul_reduce_lem}

-- The number of `n` bytes from the index `i`, the first one the lowest.
abbrev pub bytes_number : ℕ → List ℕ → ℕ → ℕ
bytes_number zero block i = 0
bytes_number (suc n) block i = get_or block i 0 + 2 ^ 8 * bytes_number n block (i + 1)

pub get_or-lt : (block : List ℕ) (i : ℕ) → IsBytes block → get_or block i 0 < 2 ^ 8
get_or-lt [] i h = omega arith
get_or-lt (x ∷ block) zero (hx, h) = hx
get_or-lt (x ∷ block) (suc i) (hx, h) = get_or-lt block i h

or_above : (k q r : ℕ) → r < 2 ^ k → bit_or r (q * 2 ^ k) ≡ q * 2 ^ k + r
or_above k q r h = bit_or_comm r (q * 2 ^ k) ∙ bit_or_sum k q r h

pub u8to32_lem :
    (block : List ℕ) (i : ℕ)
    → IsBytes block
    → u8to32 block i
      ≡ get_or block i 0
        + 2 ^ 8 * get_or block (i + 1) 0
        + 2 ^ 16 * get_or block (i + 2) 0
        + 2 ^ 24 * get_or block (i + 3) 0
unfolding u8to32
u8to32_lem block i h =
    let h0 = get_or-lt block i h in
    let h1 = get_or-lt block (i + 1) h in
    let h2 = get_or-lt block (i + 2) h in
    let h3 = get_or-lt block (i + 3) h in
    rw
      (
        or_above 8 (get_or block (i + 1) 0) (get_or block i 0) h0,
        or_above 16 (get_or block (i + 2) 0) (get_or block (i + 1) 0 * 2 ^ 8 + get_or block i 0)
            (omega (arith, h0, h1)),
        or_above 24 (get_or block (i + 3) 0)
            (get_or block (i + 2) 0 * 2 ^ 16 + (get_or block (i + 1) 0 * 2 ^ 8 + get_or block i 0))
            (omega (arith, h0, h1, h2)),
      )
      (omega arith)

-- The block's limbs with a high bit: five limbs of 26 bits with the number of the bytes.
record IsChunks (c0 c1 c2 c3 c4 n : ℕ) : Type 0 where
  b0 : c0 < 2 ^ 26
  b1 : c1 < 2 ^ 26
  b2 : c2 < 2 ^ 26
  b3 : c3 < 2 ^ 26
  b4 : c4 < 2 ^ 24
  sum : c0 + 2 ^ 26 * c1 + 2 ^ 52 * c2 + 2 ^ 78 * c3 + 2 ^ 104 * c4 ≡ n

chunks :
    (block : List ℕ)
    → IsBytes block
    → IsChunks
        (u8to32 block 0 % 2 ^ 26)
        (u8to32 block 3 / 2 ^ 2 % 2 ^ 26)
        (u8to32 block 6 / 2 ^ 4 % 2 ^ 26)
        (u8to32 block 9 / 2 ^ 6 % 2 ^ 26)
        (u8to32 block 12 / 2 ^ 8)
        (bytes_number 16 block 0)
chunks block h =
    let w0 = u8to32_lem block 0 h in
    let w3 = u8to32_lem block 3 h in
    let w6 = u8to32_lem block 6 h in
    let w9 = u8to32_lem block 9 h in
    let w12 = u8to32_lem block 12 h in
    let at : (i : ℕ) → get_or block i 0 < 2 ^ 8 = λ i. get_or-lt block i h in
    record {
      b0 = omega arith;
      b1 = omega arith;
      b2 = omega arith;
      b3 = omega arith;
      b4 = omega (arith, w12, at 12, at 13, at 14, at 15);
      sum = omega (
        arith,
        w0,
        w3,
        w6,
        w9,
        w12,
        at 0,
        at 1,
        at 2,
        at 3,
        at 4,
        at 5,
        at 6,
        at 7,
        at 8,
        at 9,
        at 10,
        at 11,
        at 12,
        at 13,
        at 14,
        at 15,
      );
    }

-- The number of a block of 16 bytes with a high bit.
abbrev pub block_number : List ℕ → ℕ → ℕ
block_number block hibit = bytes_number 16 block 0 + 2 ^ 104 * hibit

high_limb : (c hibit : ℕ) → c < 2 ^ 24 → (hibit ≡ 0) ⊎ (hibit ≡ 2 ^ 24) → bit_or c hibit ≡ c + hibit
high_limb c hibit h (inl e) = rw (e, bit_or-zero c) (omega arith)
high_limb c hibit h (inr e) = rw e (or_above 24 1 c h ∙ omega arith)

add_block_lem :
    (h : Five) (block : List ℕ) (hibit : ℕ)
    → IsReduced h
    → IsBytes block
    → (hibit ≡ 0) ⊎ (hibit ≡ 2 ^ 24)
    → IsLoaded (add_block h block hibit)
      × (number (add_block h block hibit) ≡ number h + block_number block hibit)
unfolding add_block
add_block_lem h block hibit b bytes bit =
    let c = chunks block bytes in
    let small : hibit ≤ 2 ^ 24 = ground arith in
    rw
      (
        bit_and_mask 26 (u8to32 block 0),
        bit_and_mask 26 (u8to32 block 3 / 2 ^ 2),
        bit_and_mask 26 (u8to32 block 6 / 2 ^ 4),
        bit_and_mask 26 (u8to32 block 9 / 2 ^ 6),
        high_limb (u8to32 block 12 / 2 ^ 8) hibit c.b4 bit,
      )
      (
        record {
          b0 = omega arith;
          b1 = omega (arith, b.b1);
          b2 = omega arith;
          b3 = omega arith;
          b4 = omega (arith, b.b4, c.b4);
        },
        omega (arith, c.sum, b.b0, b.b1, b.b2, b.b3, b.b4, c.b0, c.b1, c.b2, c.b3, c.b4),
      )

-- From reduced limbs, of any bytes and with a high bit of 0 or `2 ^ 24`, `process_block` leaves
-- reduced limbs, with the accumulator plus the block, times the key, modulo `2 ^ 130 - 5`.
pub process_block_lem :
    (p : Poly1305) (block : List ℕ) (hibit : ℕ)
    → IsReduced p.h
    → IsKey p.r p.s
    → IsBytes block
    → (hibit ≡ 0) ⊎ (hibit ≡ 2 ^ 24)
    → IsReduced (process_block p block hibit).h
      × Cong
          (2 ^ 130 - 5)
          (number (process_block p block hibit).h)
          ((number p.h + block_number block hibit) * number p.r)
unfolding process_block
process_block_lem p block hibit b k bytes bit =
    let (loaded, sum) = add_block_lem p.h block hibit b bytes bit in
    let (reduced, q, e) = mul_reduce_lem (add_block p.h block hibit) p.r p.s loaded k in
    (
      reduced,
      sym (Cong-add_mul (2 ^ 130 - 5) (number (mul_reduce (add_block p.h block hibit) p.r p.s)) q)
          ∙ ap (λ t. t % (2 ^ 130 - 5)) e
          ∙ ap (λ t. (t * number p.r) % (2 ^ 130 - 5)) sum,
    )
