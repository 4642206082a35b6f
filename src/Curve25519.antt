-- ===== src/Curve25519.antt =====
-- src/curve25519/portable.rs and x25519.rs: the field of five 51-bit limbs and the Montgomery
-- ladder, without assembly.
pub mod Limbs
pub mod Field
pub mod Unpacking
pub mod Packing
pub mod Inverse
pub mod Steps
pub mod Clamp
pub mod Multiple
use mcu_crypto_asm.Base.{
  ℕ, zero, suc, ◌+◌, ◌-◌, ◌*◌, ◌/◌, ◌%◌, ◌^◌, ◌≡◌, List, [], ◌∷◌, ◌++◌, Bool, true, false, ◌||◌,
}
use mcu_crypto_asm.Base.{
  ltb, not, ◌==◌, if◌then◌else◌, get_or, set, take, drop, replicate, u64, bit_and, bit_or, bit_xor,
}
use mcu_crypto_asm.Bytes.{le_number}

-- The limbs, the lowest first.
pub record Fe51 : Type 0 where
  pub x0 : ℕ
  pub x1 : ℕ
  pub x2 : ℕ
  pub x3 : ℕ
  pub x4 : ℕ

abbrev pub fe_zero : Fe51
fe_zero = record { x0 = 0; x1 = 0; x2 = 0; x3 = 0; x4 = 0 }

abbrev pub fe_one : Fe51
fe_one = record { x0 = 1; x1 = 0; x2 = 0; x3 = 0; x4 = 0 }

abbrev pub mask51 : ℕ
mask51 = 2 ^ 51 - 1

-- `u64::from_le_bytes(bytes[i * 8..(i + 1) * 8])`
abbrev pub word64 : List ℕ → ℕ → ℕ
word64 bytes i = le_number (take 8 (drop (i * 8) bytes))

pub from_bytes : List ℕ → Fe51
from_bytes bytes =
    let w0 = word64 bytes 0 in
    let w1 = word64 bytes 1 in
    let w2 = word64 bytes 2 in
    let w3 = bit_and (word64 bytes 3) (2 ^ 63 - 1) in
    record {
      x0 = bit_and w0 mask51;
      x1 = bit_and (bit_or (w0 / 2 ^ 51) (u64 (w1 * 2 ^ 13))) mask51;
      x2 = bit_and (bit_or (w1 / 2 ^ 38) (u64 (w2 * 2 ^ 26))) mask51;
      x3 = bit_and (bit_or (w2 / 2 ^ 25) (u64 (w3 * 2 ^ 39))) mask51;
      x4 = w3 / 2 ^ 12;
    }

-- One turn of the strict reduction in `to_bytes`.
pub carry_pass : Fe51 → Fe51
carry_pass t =
    let t1 = u64 (t.x1 + t.x0 / 2 ^ 51) in
    let t2 = u64 (t.x2 + t1 / 2 ^ 51) in
    let t3 = u64 (t.x3 + t2 / 2 ^ 51) in
    let t4 = u64 (t.x4 + t3 / 2 ^ 51) in
    record {
      x0 = u64 (bit_and t.x0 mask51 + u64 (t4 / 2 ^ 51 * 19));
      x1 = bit_and t1 mask51;
      x2 = bit_and t2 mask51;
      x3 = bit_and t3 mask51;
      x4 = bit_and t4 mask51;
    }

pub to_le64 : ℕ → List ℕ
to_le64 x =
    x % 2 ^ 8
    ∷ x / 2 ^ 8 % 2 ^ 8
    ∷ x / 2 ^ 16 % 2 ^ 8
    ∷ x / 2 ^ 24 % 2 ^ 8
    ∷ x / 2 ^ 32 % 2 ^ 8
    ∷ x / 2 ^ 40 % 2 ^ 8
    ∷ x / 2 ^ 48 % 2 ^ 8
    ∷ x / 2 ^ 56 % 2 ^ 8
    ∷ []

-- The full reduction of four words and their bytes: `p` is taken off if adding 19 overflows
-- `2 ^ 255`. The loop over `sub` before it leaves no value that is used.
pub reduce_words : (w0 w1 w2 w3 : ℕ) → List ℕ
reduce_words w0 w1 w2 w3 =
    let d0 = w0 + 19 in
    let d1 = w1 + d0 / 2 ^ 64 in
    let d2 = w2 + d1 / 2 ^ 64 in
    let d3 = w3 + d2 / 2 ^ 64 in
    if not (u64 d3 / 2 ^ 63 == 0) || not (d3 / 2 ^ 64 == 0)
    then to_le64 (u64 d0)
      ++ to_le64 (u64 d1)
      ++ to_le64 (u64 d2)
      ++ to_le64 (bit_and (u64 d3) (2 ^ 63 - 1))
    else to_le64 w0 ++ to_le64 w1 ++ to_le64 w2 ++ to_le64 w3

pub to_bytes : Fe51 → List ℕ
to_bytes a =
    let t = carry_pass (carry_pass a) in
    reduce_words (bit_or t.x0 (u64 (t.x1 * 2 ^ 51))) (bit_or (t.x1 / 2 ^ 13) (u64 (t.x2 * 2 ^ 38)))
      (bit_or (t.x2 / 2 ^ 26) (u64 (t.x3 * 2 ^ 25))) (bit_or (t.x3 / 2 ^ 39) (u64 (t.x4 * 2 ^ 12)))

pub add : Fe51 → Fe51 → Fe51
add a b = record {
  x0 = u64 (a.x0 + b.x0);
  x1 = u64 (a.x1 + b.x1);
  x2 = u64 (a.x2 + b.x2);
  x3 = u64 (a.x3 + b.x3);
  x4 = u64 (a.x4 + b.x4);
}

-- `a + bias - b` in `u64`
abbrev pub biased : ℕ → ℕ → ℕ → ℕ
biased bias a b = u64 (a + bias + 2 ^ 64 - b)

pub sub : Fe51 → Fe51 → Fe51
sub a b = record {
  x0 = biased (0x7ffffffffffed * 2) a.x0 b.x0;
  x1 = biased (0x7ffffffffffff * 2) a.x1 b.x1;
  x2 = biased (0x7ffffffffffff * 2) a.x2 b.x2;
  x3 = biased (0x7ffffffffffff * 2) a.x3 b.x3;
  x4 = biased (0x7ffffffffffff * 2) a.x4 b.x4;
}

abbrev pub u128 : ℕ → ℕ
u128 n = n % 2 ^ 128

abbrev pub low51 : ℕ → ℕ
low51 r = bit_and (u64 r) mask51

-- The carries over the five sums, at the end of `mul` and of `mul_scalar`.
pub carry_sums : (r0 r1 r2 r3 r4 : ℕ) → Fe51
carry_sums r0 r1 r2 r3 r4 =
    let r1 = u128 (r1 + r0 / 2 ^ 51) in
    let r2 = u128 (r2 + r1 / 2 ^ 51) in
    let r3 = u128 (r3 + r2 / 2 ^ 51) in
    let r4 = u128 (r4 + r3 / 2 ^ 51) in
    let s0 = u128 (low51 r0 + u128 (r4 / 2 ^ 51 * 19)) in
    record {
      x0 = low51 s0;
      x1 = u64 (low51 r1 + u64 (s0 / 2 ^ 51));
      x2 = low51 r2;
      x3 = low51 r3;
      x4 = low51 r4;
    }

-- A product from the fifth limb on comes back with the factor 19.
pub mul : Fe51 → Fe51 → Fe51
mul a b =
    carry_sums
      (u128
        (a.x0 * b.x0 + a.x1 * b.x4 * 19 + a.x2 * b.x3 * 19 + a.x3 * b.x2 * 19 + a.x4 * b.x1 * 19))
      (u128 (a.x0 * b.x1 + a.x1 * b.x0 + a.x2 * b.x4 * 19 + a.x3 * b.x3 * 19 + a.x4 * b.x2 * 19))
      (u128 (a.x0 * b.x2 + a.x1 * b.x1 + a.x2 * b.x0 + a.x3 * b.x4 * 19 + a.x4 * b.x3 * 19))
      (u128 (a.x0 * b.x3 + a.x1 * b.x2 + a.x2 * b.x1 + a.x3 * b.x0 + a.x4 * b.x4 * 19))
      (u128 (a.x0 * b.x4 + a.x1 * b.x3 + a.x2 * b.x2 + a.x3 * b.x1 + a.x4 * b.x0))

pub sqr : Fe51 → Fe51
sqr a = mul a a

pub mul_scalar : Fe51 → ℕ → Fe51
mul_scalar a s = carry_sums (a.x0 * s) (a.x1 * s) (a.x2 * s) (a.x3 * s) (a.x4 * s)

-- `n` squarings
pub sqr_n : ℕ → Fe51 → Fe51
sqr_n zero a = a
sqr_n (suc n) a = sqr_n n (sqr a)

pub invert : Fe51 → Fe51
invert a =
    let t0 = sqr a in
    let t1 = mul a (sqr (sqr t0)) in
    let t0 = mul t0 t1 in
    let t1 = mul t1 (sqr t0) in
    let t1 = mul (sqr_n 4 (sqr t1)) t1 in
    let t2 = mul (sqr_n 9 (sqr t1)) t1 in
    let t2 = mul (sqr_n 19 (sqr t2)) t2 in
    let t1 = mul (sqr_n 9 (sqr t2)) t1 in
    let t2 = mul (sqr_n 49 (sqr t1)) t1 in
    let t2 = mul (sqr_n 99 (sqr t2)) t2 in
    let t1 = mul (sqr_n 49 (sqr t2)) t1 in mul (sqr (sqr (sqr (sqr (sqr t1))))) t0

-- One limb of `cswap`: the two words, exchanged under a mask of ones.
pub swap_word : ℕ → ℕ → ℕ → ℕ × ℕ
swap_word mask a b = let delta = bit_and mask (bit_xor a b) in (bit_xor a delta, bit_xor b delta)

pub cswap : ℕ → Fe51 → Fe51 → Fe51 × Fe51
cswap swap a b =
    let mask = (2 ^ 64 - swap) % 2 ^ 64 in
    let (a0, b0) = swap_word mask a.x0 b.x0 in
    let (a1, b1) = swap_word mask a.x1 b.x1 in
    let (a2, b2) = swap_word mask a.x2 b.x2 in
    let (a3, b3) = swap_word mask a.x3 b.x3 in
    let (a4, b4) = swap_word mask a.x4 b.x4 in
    (
      record { x0 = a0; x1 = a1; x2 = a2; x3 = a3; x4 = a4 },
      record { x0 = b0; x1 = b1; x2 = b2; x3 = b3; x4 = b4 },
    )

-- The variables of the ladder.
pub record Ladder : Type 0 where
  pub x2 : Fe51
  pub z2 : Fe51
  pub x3 : Fe51
  pub z3 : Fe51
  pub swap : ℕ

-- The two exchanges under `swap`.
pub cswap_both : ℕ → Ladder → Ladder
cswap_both swap l =
    let (x2, x3) = cswap swap l.x2 l.x3 in
    let (z2, z3) = cswap swap l.z2 l.z3 in
    record { x2 = x2; z2 = z2; x3 = x3; z3 = z3; swap = l.swap }

-- The formulas of one turn, and the bit that the next turn compares with.
pub ladder_formulas : Fe51 → ℕ → Ladder → Ladder
ladder_formulas x1 kt l =
    let a = add l.x2 l.z2 in
    let aa = sqr a in
    let b = sub l.x2 l.z2 in
    let bb = sqr b in
    let e = sub aa bb in
    let c = add l.x3 l.z3 in
    let d = sub l.x3 l.z3 in
    let da = mul d a in
    let cb = mul c b in
    record {
      x3 = sqr (add da cb);
      z3 = mul x1 (sqr (sub da cb));
      x2 = mul aa bb;
      z2 = mul e (add aa (mul_scalar e 121665));
      swap = kt;
    }

-- `(clamped[t / 8] >> (t % 8)) & 1`
abbrev pub bit_at : List ℕ → ℕ → ℕ
bit_at clamped t = bit_and (get_or clamped (t / 8) 0 / 2 ^ (t % 8)) 1

pub ladder_step : Fe51 → ℕ → Ladder → Ladder
ladder_step x1 kt l = ladder_formulas x1 kt (cswap_both (bit_xor l.swap kt) l)

-- `for t in (0..n).rev()`
pub ladder_loop : Fe51 → List ℕ → ℕ → Ladder → Ladder
ladder_loop x1 clamped zero l = l
ladder_loop x1 clamped (suc t) l = ladder_loop x1 clamped t (ladder_step x1 (bit_at clamped t) l)

pub clamp : List ℕ → List ℕ
clamp scalar =
    let c = set scalar 0 (bit_and (get_or scalar 0 0) 248) in
    let c = set c 31 (bit_and (get_or c 31 0) 127) in set c 31 (bit_or (get_or c 31 0) 64)

pub scalarmult : List ℕ → List ℕ → List ℕ
scalarmult scalar point =
    let x1 = from_bytes point in
    let start : Ladder = record { x2 = fe_one; z2 = fe_zero; x3 = x1; z3 = fe_one; swap = 0 } in
    let l = ladder_loop x1 (clamp scalar) 255 start in
    let l = cswap_both l.swap l in to_bytes (mul l.x2 (invert l.z2))

abbrev pub basepoint : List ℕ
basepoint = 9 ∷ replicate 31 0

pub public_key : List ℕ → List ℕ
public_key secret_key = scalarmult secret_key basepoint
