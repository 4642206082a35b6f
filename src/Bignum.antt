-- ===== src/Bignum.antt =====
-- src/backend/portable.rs: multi-limb arithmetic modulo an odd number, on little-endian arrays of
-- 32-bit limbs. A loop over `j in 0..N` is a recursion on the arrays, which all have `N` limbs.
pub mod Value
pub mod Chains
pub mod Reduce
pub mod AddSub
pub mod Halve
pub mod Mont
pub mod MulMont
pub mod Domain
pub mod Power
use mcu_crypto_asm.Base.{ℕ, ◌+◌, ◌-◌, ◌*◌, ◌/◌, ◌%◌, ◌^◌, ◌<◌, bit_and, bit_or, bit_xor}
use mcu_crypto_asm.Base.{List, [], ◌∷◌, ◌++◌, Bool, true, false, ltb, if◌then◌else◌}
use mcu_crypto_asm.Base.{u32, u64, wrapping_sub32, wrapping_neg32, sub_add64, sar64_32}

-- A carry chain: the limbs written and the carry or borrow out.
abbrev pub Chain : Type 0
Chain = List ℕ × ℕ

-- `overflowing_add` and `overflowing_sub`: the wrapped word and the flag as a number.
abbrev pub flag : Bool → ℕ
flag true = 1
flag false = 0

abbrev pub overflowing_add : ℕ → ℕ → ℕ × ℕ
overflowing_add a b = (u32 (a + b), flag (ltb (2 ^ 32 - 1) (a + b)))

abbrev pub overflowing_sub : ℕ → ℕ → ℕ × ℕ
overflowing_sub a b = (wrapping_sub32 a b, flag (ltb a b))

-- The loop of `add_mod`: two overflowing additions a limb.
pub overflowing_add_loop : List ℕ → List ℕ → ℕ → Chain
overflowing_add_loop (x ∷ a) (y ∷ b) carry =
    let (r1, c1) = overflowing_add x y in
    let (r2, c2) = overflowing_add r1 carry in
    let (t, out) = overflowing_add_loop a b (bit_or c1 c2) in (r2 ∷ t, out)
overflowing_add_loop _ _ carry = ([], carry)

-- The loop of `sub_mod` and `cond_sub_p`: two overflowing subtractions a limb.
pub overflowing_sub_loop : List ℕ → List ℕ → ℕ → Chain
overflowing_sub_loop (x ∷ a) (y ∷ b) borrow =
    let (r1, b1) = overflowing_sub x y in
    let (r2, b2) = overflowing_sub r1 borrow in
    let (t, out) = overflowing_sub_loop a b (bit_or b1 b2) in (r2 ∷ t, out)
overflowing_sub_loop _ _ borrow = ([], borrow)

-- The loop of the fixed-size variants: a `u64` accumulator.
pub add_loop : List ℕ → List ℕ → ℕ → Chain
add_loop (x ∷ a) (y ∷ b) carry =
    let s = u64 (x + y + carry) in let (t, out) = add_loop a b (s / 2 ^ 32) in (u32 s ∷ t, out)
add_loop _ _ carry = ([], carry)

-- The same for a difference, with an `i64` accumulator: the borrow is the pattern of 0 or -1.
pub sub_loop : List ℕ → List ℕ → ℕ → Chain
sub_loop (x ∷ a) (y ∷ b) borrow =
    let d = sub_add64 x y borrow in let (t, out) = sub_loop a b (sar64_32 d) in (u32 d ∷ t, out)
sub_loop _ _ borrow = ([], borrow)

-- `p & mask`, limb by limb
pub mask_limbs : ℕ → List ℕ → List ℕ
mask_limbs mask [] = []
mask_limbs mask (x ∷ p) = bit_and x mask ∷ mask_limbs mask p

-- `t ^ ((t ^ diff) & mask)`, limb by limb
pub select_limbs : ℕ → List ℕ → List ℕ → List ℕ
select_limbs mask (x ∷ t) (d ∷ diff) =
    bit_xor x (bit_and (bit_xor x d) mask) ∷ select_limbs mask t diff
select_limbs mask _ _ = []

unfoldable pub cond_sub_p : List ℕ → ℕ → List ℕ → List ℕ
cond_sub_p t hi p =
    let (diff, borrow) = overflowing_sub_loop t p 0 in
    let underflow = wrapping_sub32 hi borrow / 2 ^ 31 in
    select_limbs (wrapping_sub32 underflow 1) t diff

pub add_mod : List ℕ → List ℕ → List ℕ → List ℕ
add_mod a b p = let (t, carry) = overflowing_add_loop a b 0 in cond_sub_p t carry p

pub sub_mod : List ℕ → List ℕ → List ℕ → List ℕ
sub_mod a b p =
    let (t, borrow) = overflowing_sub_loop a b 0 in
    (overflowing_add_loop t (mask_limbs (wrapping_neg32 borrow) p) 0).0

pub cond_sub_p_n : List ℕ → ℕ → List ℕ → List ℕ
cond_sub_p_n t hi p =
    let borrow = bit_and (u32 (sub_loop t p 0).1) 1 in
    let underflow = wrapping_sub32 hi borrow / 2 ^ 31 in
    let mask = wrapping_neg32 (bit_xor underflow 1) in (sub_loop t (mask_limbs mask p) 0).0

pub add_mod_n : List ℕ → List ℕ → List ℕ → List ℕ
add_mod_n a b p = let (t, carry) = add_loop a b 0 in cond_sub_p_n t (u32 carry) p

pub sub_mod_n : List ℕ → List ℕ → List ℕ → List ℕ
sub_mod_n a b p = let (t, borrow) = sub_loop a b 0 in (add_loop t (mask_limbs (u32 borrow) p) 0).0

-- `(sum >> 1)` over the array, the carry coming in at the top.
pub shift_right : List ℕ → ℕ → List ℕ
shift_right [] carry = []
shift_right (x ∷ []) carry = bit_or (x / 2) (u32 (carry * 2 ^ 31)) ∷ []
shift_right (x ∷ y ∷ s) carry = bit_or (x / 2) (u32 (y * 2 ^ 31)) ∷ shift_right (y ∷ s) carry

abbrev pub low_limb : List ℕ → ℕ
low_limb [] = 0
low_limb (x ∷ a) = x

pub div2_n : List ℕ → List ℕ → List ℕ
div2_n a p =
    let mask = wrapping_neg32 (bit_and (low_limb a) 1) in
    let (sum, carry) = add_loop a (mask_limbs mask p) 0 in shift_right sum (u32 carry)

-- One row of CIOS, `t[j] + a[j] * b[i] + c` over the array, in `u64`.
pub mac_loop : List ℕ → List ℕ → ℕ → ℕ → Chain
mac_loop (x ∷ a) (w ∷ t) bi c =
    let s = u64 (x * bi + w + c) in
    let (t', out) = mac_loop a t bi (s / 2 ^ 32) in (u32 s ∷ t', out)
mac_loop _ _ bi c = ([], c)

-- The words of `t` between rounds: `t[0..n]` and `t[n]`. `t[n + 1]` lives within a round.
pub record Acc : Type 0 where
  pub low : List ℕ
  pub top : ℕ

-- The reduction of one word: the low word goes, and the others move down by one.
pub reduce_word : List ℕ → ℕ → ℕ → List ℕ → ℕ → Acc
reduce_word [] tn tn1 p n0inv = record { low = []; top = tn }
reduce_word (t0 ∷ t) tn tn1 [] n0inv = record { low = []; top = tn }
reduce_word (t0 ∷ t) tn tn1 (p0 ∷ p) n0inv =
    let m = u32 (t0 * n0inv) in
    let (low, c) = mac_loop p t m (u64 (m * p0 + t0) / 2 ^ 32) in
    let x = u64 (tn + c) in record { low = low ++ (u32 x ∷ []); top = u32 (tn1 + x / 2 ^ 32) }

-- One round of the outer loop.
pub mont_round : List ℕ → List ℕ → ℕ → Acc → ℕ → Acc
mont_round a p n0inv t bi =
    let (low, c) = mac_loop a t.low bi 0 in
    let x = u64 (t.top + c) in reduce_word low (u32 x) (x / 2 ^ 32) p n0inv

pub mont_loop : List ℕ → List ℕ → ℕ → List ℕ → Acc → Acc
mont_loop a p n0inv [] t = t
mont_loop a p n0inv (bi ∷ b) t = mont_loop a p n0inv b (mont_round a p n0inv t bi)

pub zeros : List ℕ → List ℕ
zeros [] = []
zeros (x ∷ a) = 0 ∷ zeros a

-- `a * b * R^-1 mod p`
unfoldable pub mul_mont : List ℕ → List ℕ → List ℕ → ℕ → List ℕ
mul_mont a b p n0inv =
    let t = mont_loop a p n0inv b (record { low = zeros a; top = 0 }) in cond_sub_p t.low t.top p
