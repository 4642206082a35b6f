-- ===== src/Poly1305/Message.antt =====
-- A key, and the whole blocks of a message: the polynomial that the accumulator stands for.
use mcu_crypto_asm.Base.{
  ℕ, zero, suc, ◌+◌, ◌-◌, ◌*◌, ◌/◌, ◌^◌, ◌<◌, ◌≡◌, refl, ◌∙◌, List, take, drop, arith, inr,
}
use mcu_crypto_asm.Base.{Cong, Cong-mul, Cong-add, bit_and, bit_and-le, u32}
use mcu_crypto_asm.Bytes.{IsBytes, IsBytes-take, IsBytes-drop}
use mcu_crypto_asm.Poly1305.{Poly1305, u8to32, new, process_block, block_loop}
use mcu_crypto_asm.Poly1305.Multiply.{number, IsReduced, IsKey}
use mcu_crypto_asm.Poly1305.Block.{block_number, process_block_lem}

-- What the code keeps from block to block.
pub record IsRunning (p : Poly1305) : Type 0 where
  pub accumulator : IsReduced p.h
  pub key : IsKey p.r p.s

-- Of every key, `new` gives a state with reduced limbs, a key of limbs below `2 ^ 26` with its
-- multiples by five, and the accumulator zero.
pub new-IsRunning : (key : List ℕ) → IsRunning (new key) × (number (new key).h ≡ 0)
unfolding new
new-IsRunning key = (
  record {
    accumulator = record {
      b0 = omega arith;
      b1 = omega arith;
      b2 = omega arith;
      b3 = omega arith;
      b4 = omega arith;
    };
    key = record {
      b0 = low 0x3ffffff (u8to32 key 0) (omega arith);
      b1 = low 0x3ffff03 (u8to32 key 3 / 2 ^ 2) (omega arith);
      b2 = low 0x3ffc0ff (u8to32 key 6 / 2 ^ 4) (omega arith);
      b3 = low 0x3f03fff (u8to32 key 9 / 2 ^ 6) (omega arith);
      b4 = low 0x00fffff (u8to32 key 12 / 2 ^ 8) (omega arith);
      fives = rw (
        five (low 0x3ffff03 (u8to32 key 3 / 2 ^ 2) (omega arith)),
        five (low 0x3ffc0ff (u8to32 key 6 / 2 ^ 4) (omega arith)),
        five (low 0x3f03fff (u8to32 key 9 / 2 ^ 6) (omega arith)),
        five (low 0x00fffff (u8to32 key 12 / 2 ^ 8) (omega arith)),
      );
    };
  },
  refl,
)
  where
    low : (mask w : ℕ) → mask < 2 ^ 26 → bit_and w mask < 2 ^ 26
    low mask w h = omega (arith, bit_and-le w mask)

    five : {a : ℕ} → a < 2 ^ 26 → u32 (a * 5) ≡ a * 5
    five h = omega arith

-- The polynomial of a message's blocks, from an accumulator, by Horner's rule.
pub horner : ℕ → ℕ → ℕ → List ℕ → ℕ
horner zero r acc m = acc
horner (suc n) r acc m = horner n r ((acc + block_number (take 16 m) (2 ^ 24)) * r) (drop 16 m)

horner-Cong : (q n r a b : ℕ) (m : List ℕ) → Cong q a b → Cong q (horner n r a m) (horner n r b m)
unfolding horner
horner-Cong q zero r a b m e = e
horner-Cong q (suc n) r a b m e =
    let block = block_number (take 16 m) (2 ^ 24) in
    horner-Cong q n r ((a + block) * r) ((b + block) * r) (drop 16 m)
      (Cong-mul q (a + block) (b + block) r r (Cong-add q a b block block e refl) refl)

-- From a running state and any bytes, the block loop leaves a running state whose accumulator is,
-- modulo `2 ^ 130 - 5`, the polynomial of the blocks at the key by Horner's rule.
pub block_loop-horner :
    (n : ℕ) (p : Poly1305) (m : List ℕ)
    → IsRunning p
    → IsBytes m
    → IsRunning (block_loop n p m)
      × Cong (2 ^ 130 - 5) (number (block_loop n p m).h) (horner n (number p.r) (number p.h) m)
unfolding block_loop horner process_block
block_loop-horner zero p m h bytes = (h, refl)
block_loop-horner (suc n) p m h bytes =
    let (reduced, value) =
      process_block_lem p (take 16 m) (2 ^ 24) h.accumulator h.key (IsBytes-take 16 m bytes)
        (inr refl) in
    let next = process_block p (take 16 m) (2 ^ 24) in
    let (running, rest) =
      block_loop-horner n next (drop 16 m) (record { accumulator = reduced; key = h.key })
        (IsBytes-drop 16 m bytes) in
    (
      running,
      rest
          ∙ horner-Cong (2 ^ 130 - 5) n (number p.r) (number next.h)
              ((number p.h + block_number (take 16 m) (2 ^ 24)) * number p.r) (drop 16 m) value,
    )
