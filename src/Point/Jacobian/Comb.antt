-- ===== src/Point/Jacobian/Comb.antt =====
-- `mul_base` of PointJacobian in src/point.rs: multiples of the base point by a comb, whose table is
-- read in full for every digit. The table has sixteen entries for each of `ntables` digits.
pub mod Scan
pub mod Element
pub mod Turn
use mcu_crypto_asm.Base.{
  ℕ, zero, suc, ◌+◌, ◌*◌, ◌/◌, ◌%◌, ◌^◌, List, [], ◌∷◌, get_or, take, drop, replicate, bit_and,
  bit_or, bit_xor, wrapping_sub32, wrapping_neg32,
}
use mcu_crypto_asm.Bignum.{select_limbs}
use mcu_crypto_asm.Curve.{CurveParams}
use mcu_crypto_asm.Fe.{Fe}
use mcu_crypto_asm.Point.Jacobian.{PointJacobian, jacobian_identity, double, add_mixed}

abbrev pub Entry : Type 0
Entry = Fe × Fe

-- All ones for zero and zero for other words, without a test.
pub zero_mask : ℕ → ℕ
zero_mask d = wrapping_sub32 (bit_and (bit_or d (wrapping_neg32 d) / 2 ^ 31) 1) 1

-- `out |= entry & mask`, limb by limb.
pub merge : (mask : ℕ) → (out entry : Fe) → Fe
merge mask (x ∷ out) (y ∷ entry) = bit_or x (bit_and y mask) ∷ merge mask out entry
merge mask _ _ = []

-- The entry with the number of the digit, where `j` is the first entry's.
pub scan : List Entry → (j digit : ℕ) → Entry → Entry
scan [] j digit out = out
scan ((x, y) ∷ entries) j digit (px, py) =
    let mask = zero_mask (bit_xor j digit) in
    scan entries (suc j) digit (merge mask px x, merge mask py y)

abbrev pub key_bit : List ℕ → ℕ → ℕ
key_bit k bit = bit_and (get_or k (bit / 32) 0 / 2 ^ (bit % 32)) 1

-- One bit of each of four blocks.
pub comb_digit : List ℕ → (d t i : ℕ) → ℕ
comb_digit k d t i =
    let b0 = key_bit k (t * 4 * d + i) in
    let b1 = key_bit k ((t * 4 + 1) * d + i) in
    let b2 = key_bit k ((t * 4 + 2) * d + i) in
    let b3 = key_bit k ((t * 4 + 3) * d + i) in
    bit_or (bit_or (bit_or (bit_or 0 b0) (b1 * 2)) (b2 * 4)) (b3 * 8)

pub select_mask : (mask : ℕ) → (a b : PointJacobian) → PointJacobian
select_mask mask a b = record {
  x = select_limbs mask a.x b.x;
  y = select_limbs mask a.y b.y;
  z = select_limbs mask a.z b.z;
}

-- The turn of the inner loop.
pub comb_add : CurveParams → (k : List ℕ) → List Entry → (d i t : ℕ) → PointJacobian → PointJacobian
comb_add c k table d i t acc =
    let digit = comb_digit k d t i in
    let zeros = replicate c.field.n 0 in
    let (px, py) = scan (take 16 (drop (t * 16) table)) 0 digit (zeros, zeros) in
    let next = add_mixed c acc px py in select_mask (zero_mask digit) next acc

-- The loops, from the turn of the inner one: `i` goes down and `t` goes up.
pub comb_row :
    (turn : ℕ → PointJacobian → PointJacobian) → (rest t : ℕ) → PointJacobian → PointJacobian
comb_row turn zero t acc = acc
comb_row turn (suc rest) t acc = comb_row turn rest (suc t) (turn t acc)

pub comb_loop :
    CurveParams
    → (turn : ℕ → ℕ → PointJacobian → PointJacobian) → (ntables i : ℕ) → PointJacobian
    → PointJacobian
comb_loop c turn ntables zero acc = acc
comb_loop c turn ntables (suc i) acc =
    comb_loop c turn ntables i (comb_row (turn i) ntables 0 (double c acc))

pub mul_base : CurveParams → (k : List ℕ) → List Entry → (d ntables : ℕ) → PointJacobian
mul_base c k table d ntables =
    comb_loop c (comb_add c k table d) ntables d (jacobian_identity c.field)
