-- ===== src/Base/Words.antt =====
-- Machine words as native numbers: what Rust's casts and wrapping operations do at each width.
use Prim.Native.Nat.{ℕ, ◌+◌, ◌-◌, ◌/◌, ◌%◌, ◌^◌, ◌<◌, bit_and}
use mathlib.Core.Path.{◌≡◌, ◌∙◌}
use native.Mathlib.Nat.{mod-eq_of_lt}
use mcu_crypto_asm.Base.Tests.{ltb, if◌then◌else◌}
use mcu_crypto_asm.Base.Bits.{bit_and_mask}

-- `as u8`, `as u32`, `as u64`, `as u128`
abbrev pub u8 : ℕ → ℕ
u8 n = n % 2 ^ 8

abbrev pub u32 : ℕ → ℕ
u32 n = n % 2 ^ 32

abbrev pub u64 : ℕ → ℕ
u64 n = n % 2 ^ 64

-- `a - b` modulo `2 ^ 32`, and `-a`
abbrev pub wrapping_sub32 : ℕ → ℕ → ℕ
wrapping_sub32 a b = (a + 2 ^ 32 - b) % 2 ^ 32

abbrev pub wrapping_neg32 : ℕ → ℕ
wrapping_neg32 a = (2 ^ 32 - a) % 2 ^ 32

-- An `i64` is its bit pattern: `a - b + c` on patterns, and the arithmetic shift right by 32.
abbrev pub sub_add64 : ℕ → ℕ → ℕ → ℕ
sub_add64 a b c = (a + 2 ^ 64 - b + c) % 2 ^ 64

abbrev pub sar64_32 : ℕ → ℕ
sar64_32 d = if ltb d (2 ^ 63) then d / 2 ^ 32 else d / 2 ^ 32 + (2 ^ 64 - 2 ^ 32)

abbrev pub ones32 : ℕ
ones32 = 2 ^ 32 - 1

-- A mask of all ones keeps a word.
pub and-ones32 : (x : ℕ) → x < 2 ^ 32 → bit_and x ones32 ≡ x
and-ones32 x h = bit_and_mask 32 x ∙ mod-eq_of_lt h
