-- ===== src/Ghash/Size.antt =====
-- The sizes of the state and the tag of src/ghash.rs.
use mcu_crypto_asm.Base.{ℕ, ◌/◌, ◌≡◌, refl, List, length, Bool-cases, inl, inr, ◌==◌, ltb}
use mcu_crypto_asm.Bytes.{to_be32}
use mcu_crypto_asm.Ghash.{
  Htable, Ghash, ghash_ctmul32, compress_blocks, from_htable, update_block, finalize,
}

length-ghash_ctmul32 : (y h msg : List ℕ) → length (ghash_ctmul32 y h msg) ≡ 16
unfolding ghash_ctmul32 to_be32
length-ghash_ctmul32 y h msg = refl

length-compress_blocks :
    (state : List ℕ) (htable : Htable) (msg : List ℕ)
    → length state ≡ 16
    → length (compress_blocks state htable msg) ≡ 16
unfolding compress_blocks
length-compress_blocks state htable msg n = elim (Bool-cases (length msg / 16 == 0)) [
  | inl none ↦ rw (none, compress_blocks) n
  | inr some ↦ rw (some, compress_blocks) (length-ghash_ctmul32 state htable.h_bytes _)
]

-- The state is a block.
pub record IsState (g : Ghash) : Type 0 where
  pub size : length g.state ≡ 16

pub from_htable-IsState : (h : Htable) → IsState (from_htable h)
unfolding from_htable
from_htable-IsState h = record { size = refl }

pub update_block-IsState : (g : Ghash) (block : List ℕ) → IsState g → IsState (update_block g block)
unfolding update_block
update_block-IsState g block h = record {
  size = length-compress_blocks g.state g.htable block h.size;
}

pub length-finalize : (g : Ghash) → IsState g → length (finalize g) ≡ 16
unfolding finalize
length-finalize g h = elim (Bool-cases (ltb 0 g.buf_len)) [
  | inl part ↦ rw (part, finalize) (length-compress_blocks g.state g.htable _ h.size)
  | inr whole ↦ rw (whole, finalize) h.size
]
