-- ===== src/Aes.antt =====
-- src/aes.rs, the modes: what they share. The block cipher is the trait `AesEncrypt`, by which the
-- code is generic over the key size.
pub mod Counter
pub mod Gcm
pub mod Ctr
pub mod Ccm
pub mod Cmac
use mcu_crypto_asm.Base.{
  ℕ, zero, suc, ◌+◌, ◌-◌, ◌*◌, ◌/◌, ◌%◌, ◌^◌, ◌≡◌, List, [], ◌∷◌, ◌++◌, Bool, true, false,
}
use mcu_crypto_asm.Base.{leb, ◌==◌, if◌then◌else◌, get_or, take, drop, length, replicate, u32}
use mcu_crypto_asm.Bytes.{from_be32, to_be32}
use mcu_crypto_asm.Keystream.{xor_bytes}

-- `enum AesError`
pub data AesError : Type 0 where
  invalid_input invalid_signature : AesError

-- `Result`
pub data Outcome {ℓ} (A : Type ℓ) : Type ℓ where
  ok : A → Outcome A
  err : AesError → Outcome A

infixl 5 ◌>>=◌
abbrev pub ◌>>=◌ {ℓ κ} : {A : Type ℓ} {B : Type κ} → Outcome A → (A → Outcome B) → Outcome B
ok a >>= f = f a
err e >>= f = err e

-- `trait AesEncrypt`: a key schedule encrypts a block of 16 bytes into 16 bytes.
pub record AesEncrypt : Type 0 where
  pub encrypt_block : List ℕ → List ℕ
  pub length-encrypt_block : (b : List ℕ) → length (encrypt_block b) ≡ 16

abbrev pub zero_block : List ℕ
zero_block = replicate 16 0

abbrev pub word_at : List ℕ → ℕ → ℕ
word_at b i =
    from_be32 (get_or b i 0) (get_or b (i + 1) 0) (get_or b (i + 2) 0) (get_or b (i + 3) 0)

-- The rightmost 32 bits count, modulo `2 ^ 32`.
pub inc32 : List ℕ → List ℕ
inc32 blk = take 12 blk ++ to_be32 (u32 (word_at blk 12 + 1))

-- The loop of `inc128` from the last byte on: the bytes, and whether it is still carrying.
pub inc_bytes : List ℕ → List ℕ × Bool
inc_bytes [] = ([], true)
inc_bytes (b ∷ r) =
    let (done, carry) = inc_bytes r in
    if carry then ((b + 1) % 2 ^ 8 ∷ done, leb (2 ^ 8) (b + 1)) else (b ∷ done, false)

pub inc128 : List ℕ → List ℕ
inc128 blk = (inc_bytes blk).0

module _ (aes : AesEncrypt) (inc : List ℕ → List ℕ) where
  -- `data.chunks_exact_mut(32)`: two blocks a turn.
  pub ctr_pairs : ℕ → List ℕ → List ℕ → List ℕ × List ℕ
  ctr_pairs zero counter buf = (counter, [])
  ctr_pairs (suc n) counter buf =
      let k0 = aes.encrypt_block counter in
      let b1 = inc counter in
      let k1 = aes.encrypt_block b1 in
      let (last, rest) = ctr_pairs n (inc b1) (drop 32 buf) in
      (last, xor_bytes (take 16 buf) k0 ++ (xor_bytes (take 16 (drop 16 buf)) k1 ++ rest))

  -- `rem.chunks_exact_mut(16)`
  pub ctr_blocks : ℕ → List ℕ → List ℕ → List ℕ × List ℕ
  ctr_blocks zero counter buf = (counter, [])
  ctr_blocks (suc n) counter buf =
      let (last, rest) = ctr_blocks n (inc counter) (drop 16 buf) in
      (last, xor_bytes (take 16 buf) (aes.encrypt_block counter) ++ rest)

  pub ctr_tail : List ℕ → List ℕ → List ℕ × List ℕ
  ctr_tail counter [] = (counter, [])
  ctr_tail counter (x ∷ tail) = (inc counter, xor_bytes (x ∷ tail) (aes.encrypt_block counter))

  -- The counter afterwards, and the data.
  pub ctr_apply : List ℕ → List ℕ → List ℕ × List ℕ
  ctr_apply counter buf =
      let pairs = length buf / 32 in
      let (c1, out1) = ctr_pairs pairs counter (take (32 * pairs) buf) in
      let rem = drop (32 * pairs) buf in
      let blocks = length rem / 16 in
      let (c2, out2) = ctr_blocks blocks c1 (take (16 * blocks) rem) in
      let (c3, out3) = ctr_tail c2 (drop (16 * blocks) rem) in (c3, out1 ++ (out2 ++ out3))
