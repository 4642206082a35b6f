-- ===== src/Bignum/Chains.antt =====
-- What the carry chains compute: sums, differences and products of the arrays' values.
use mcu_crypto_asm.Base.{ℕ, suc, ◌+◌, ◌-◌, ◌*◌, ◌/◌, ◌%◌, ◌^◌, ◌<◌, ◌≤◌, ◌≡◌, refl, ap}
use mcu_crypto_asm.Base.{List, [], ◌∷◌, length, arith, bit_or}
use mcu_crypto_asm.Base.{u32, u64}
use mcu_crypto_asm.Bignum.{add_loop, sub_loop, overflowing_add_loop, overflowing_sub_loop}
use mcu_crypto_asm.Bignum.{Chain, overflowing_add, overflowing_sub}
use mcu_crypto_asm.Base.{sub_add64, sar64_32}
use mcu_crypto_asm.Bignum.Value.{value, radix, IsLimbs}

-- A chain's output has the shape of an array and a carry of 0 or 1.
pub record IsCarry (n : ℕ) (r : Chain) : Type 0 where
  pub size : length r.0 ≡ n
  pub limbs : IsLimbs r.0
  pub bit : r.1 ≤ 1

pub add_loop_lem :
    (a b : List ℕ) (c : ℕ)
    → length a ≡ length b
    → IsLimbs a
    → IsLimbs b
    → c ≤ 1
    → IsCarry (length a) (add_loop a b c)
      × (value (add_loop a b c).0 + radix (length a) * (add_loop a b c).1 ≡ value a + value b + c)
unfolding add_loop
add_loop_lem [] [] c n ha hb hc = (record { size = refl; limbs = tt; bit = hc }, omega arith)
add_loop_lem [] (y ∷ b) c n ha hb hc = absurd (omega arith)
add_loop_lem (x ∷ a) [] c n ha hb hc = absurd (omega arith)
add_loop_lem (x ∷ a) (y ∷ b) c n (hx, ha) (hy, hb) hc =
    let ih = add_loop_lem a b (u64 (x + y + c) / 2 ^ 32) (omega arith) ha hb (omega arith) in
    (
      record { size = ap suc ih.0.size; limbs = (omega arith, ih.0.limbs); bit = ih.0.bit },
      omega (arith, ih.1),
    )

-- `overflowing_add` twice is one addition of three words.
overflowing_add_step :
    (x y c : ℕ)
    → x < 2 ^ 32
    → y < 2 ^ 32
    → c ≤ 1
    → let (r1, c1) = overflowing_add x y in
      let (r2, c2) = overflowing_add r1 c in
      (r2 ≡ u32 (u64 (x + y + c))) × (bit_or c1 c2 ≡ u64 (x + y + c) / 2 ^ 32)
overflowing_add_step x y c hx hy hc = ground arith

-- The slice version of the addition chain does what the fixed-size one does.
pub overflowing_add_loop-eq-add_loop :
    (a b : List ℕ) (c : ℕ)
    → IsLimbs a
    → IsLimbs b
    → c ≤ 1
    → overflowing_add_loop a b c ≡ add_loop a b c
unfolding overflowing_add_loop add_loop
overflowing_add_loop-eq-add_loop [] b c ha hb hc = refl
overflowing_add_loop-eq-add_loop (x ∷ a) [] c ha hb hc = refl
overflowing_add_loop-eq-add_loop (x ∷ a) (y ∷ b) c (hx, ha) (hy, hb) hc =
    let step = overflowing_add_step x y c hx hy hc in
    let ih = overflowing_add_loop-eq-add_loop a b (u64 (x + y + c) / 2 ^ 32) ha hb (omega arith) in
    rw (step.0, step.1, ih)

abbrev sub_word : ℕ → ℕ → ℕ → ℕ
sub_word x y c = (overflowing_sub (overflowing_sub x y).0 c).0

abbrev sub_borrow : ℕ → ℕ → ℕ → ℕ
sub_borrow x y c = bit_or (overflowing_sub x y).1 (overflowing_sub (overflowing_sub x y).0 c).1

overflowing_sub_step :
    (x y c : ℕ)
    → x < 2 ^ 32
    → y < 2 ^ 32
    → c ≤ 1
    → (sub_borrow x y c ≤ 1)
      × (sub_word x y c < 2 ^ 32)
      × (sub_word x y c + y + c ≡ x + 2 ^ 32 * sub_borrow x y c)
overflowing_sub_step x y c hx hy hc = ground arith

sub_step :
    (x y c : ℕ)
    → x < 2 ^ 32
    → y < 2 ^ 32
    → c ≤ 1
    → (u32 (sub_add64 x y ((2 ^ 64 - c) % 2 ^ 64)) ≡ sub_word x y c)
      × (sar64_32 (sub_add64 x y ((2 ^ 64 - c) % 2 ^ 64)) ≡ (2 ^ 64 - sub_borrow x y c) % 2 ^ 64)
sub_step x y c hx hy hc = ground arith

pub overflowing_sub_loop_lem :
    (a b : List ℕ) (c : ℕ)
    → length a ≡ length b
    → IsLimbs a
    → IsLimbs b
    → c ≤ 1
    → IsCarry (length a) (overflowing_sub_loop a b c)
      × (value (overflowing_sub_loop a b c).0 + value b + c
          ≡ value a + radix (length a) * (overflowing_sub_loop a b c).1)
unfolding overflowing_sub_loop
overflowing_sub_loop_lem [] [] c n ha hb hc =
    (record { size = refl; limbs = tt; bit = hc }, omega arith)
overflowing_sub_loop_lem [] (y ∷ b) c n ha hb hc = absurd (omega arith)
overflowing_sub_loop_lem (x ∷ a) [] c n ha hb hc = absurd (omega arith)
overflowing_sub_loop_lem (x ∷ a) (y ∷ b) c n (hx, ha) (hy, hb) hc =
    let step = overflowing_sub_step x y c hx hy hc in
    let ih = overflowing_sub_loop_lem a b (sub_borrow x y c) (omega arith) ha hb step.0 in
    (
      record { size = ap suc ih.0.size; limbs = (step.1, ih.0.limbs); bit = ih.0.bit },
      omega (arith, ih.1, step.2),
    )

-- The pattern of the `i64` that is 0 or -1.
abbrev pub minus : ℕ → ℕ
minus borrow = (2 ^ 64 - borrow) % 2 ^ 64

-- The fixed-size subtraction chain writes the same limbs, with the borrow as 0 or -1.
pub sub_loop-eq-overflowing_sub_loop :
    (a b : List ℕ) (c : ℕ)
    → IsLimbs a
    → IsLimbs b
    → c ≤ 1
    → sub_loop a b (minus c)
      ≡ ((overflowing_sub_loop a b c).0, minus (overflowing_sub_loop a b c).1)
unfolding overflowing_sub_loop sub_loop
sub_loop-eq-overflowing_sub_loop [] b c ha hb hc = refl
sub_loop-eq-overflowing_sub_loop (x ∷ a) [] c ha hb hc = refl
sub_loop-eq-overflowing_sub_loop (x ∷ a) (y ∷ b) c (hx, ha) (hy, hb) hc =
    let step = overflowing_sub_step x y c hx hy hc in
    let same = sub_step x y c hx hy hc in
    let ih = sub_loop-eq-overflowing_sub_loop a b (sub_borrow x y c) ha hb step.0 in
    rw (same.0, same.1, ih)
