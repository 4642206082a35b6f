-- ===== src/Scalar.antt =====
-- src/scalar.rs: scalars modulo the order of the curve, in Montgomery form. The module calls the
-- portable backend on every target.
pub mod Laws
pub mod Decode
pub mod Inverse
use mcu_crypto_asm.Base.{ℕ, zero, suc, ◌+◌, ◌-◌, ◌*◌, ◌/◌, ◌%◌, ◌^◌, bit_and}
use mcu_crypto_asm.Base.{
  List, [], ◌∷◌, ◌++◌, Bool, true, false, not, Option, none, some, ltb, leb, ◌==◌,
}
use mcu_crypto_asm.Base.{if◌then◌else◌, get_or, replicate, wrapping_sub32, length, take, drop}
use mcu_crypto_asm.Bytes.{be_limbs, limbs_to_be}
use mcu_crypto_asm.Bignum.{mul_mont, add_mod_n, sub_mod_n, overflowing_sub_loop, select_limbs}
use mcu_crypto_asm.Curve.{CurveParams, Params}
use mcu_crypto_asm.Fe.{one_limbs, or_limbs, diff_limbs, nibble}

pub data Error : Type 0 where
  bad_length bad_scalar : Error

pub data Result {ℓ} (A : Type ℓ) : Type ℓ where
  ok : A → Result A
  err : Error → Result A

infixl 5 ◌>>=◌
abbrev pub ◌>>=◌ {ℓ κ} : {A : Type ℓ} {B : Type κ} → Result A → (A → Result B) → Result B
ok a >>= f = f a
err e >>= f = err e

abbrev pub Scalar : Type 0
Scalar = List ℕ

-- `a < b`, by the borrow of the difference
pub less_than : List ℕ → List ℕ → Bool
less_than a b = (overflowing_sub_loop a b 0).1 == 1

pub is_zero : Scalar → Bool
is_zero v = or_limbs 0 v == 0

pub ct_eq : Scalar → Scalar → Bool
ct_eq a b = diff_limbs 0 a b == 0

module _ (c : CurveParams) where
  abbrev limb_count : ℕ
  limb_count = length c.order

  pub from_int : List ℕ → Scalar
  from_int limbs = mul_mont limbs c.order_r2 c.order c.order_n0inv

  pub to_int : Scalar → List ℕ
  to_int v = mul_mont v (one_limbs limb_count) c.order c.order_n0inv

  pub mul : Scalar → Scalar → Scalar
  mul a b = mul_mont a b c.order c.order_n0inv

  pub add : Scalar → Scalar → Scalar
  add a b = add_mod_n a b c.order

  pub sub : Scalar → Scalar → Scalar
  sub a b = sub_mod_n a b c.order

  pub neg : Scalar → Scalar
  neg a = sub (replicate limb_count 0) a

  pub from_be_bytes : List ℕ → Result Scalar
  from_be_bytes bytes =
      let limbs = be_limbs bytes in
      if not (length bytes == 4 * limb_count)
      then err bad_length
      else if not (less_than limbs c.order)
      then err bad_scalar
      else ok (from_int limbs)

  pub from_be_bytes_nonzero : List ℕ → Result Scalar
  from_be_bytes_nonzero bytes = do
    s ← from_be_bytes bytes
    if is_zero s then err bad_scalar else ok s

  -- `out_len` is the length of the buffer that the caller passes; the bytes written come back.
  pub to_be_bytes : Scalar → ℕ → Result (List ℕ)
  to_be_bytes s out_len =
      if not (out_len == 4 * limb_count) then err bad_length else ok (limbs_to_be (to_int s))

  -- Truncated on the right or zero-padded on the left to `4 * N` bytes, then reduced once.
  pub from_be_bytes_reduce : List ℕ → Scalar
  from_be_bytes_reduce bytes =
      let n_bytes = 4 * limb_count in
      let slice =
        if leb n_bytes (length bytes)
        then take n_bytes bytes
        else replicate (n_bytes - length bytes) 0 ++ bytes in
      let limbs = be_limbs slice in
      let (diff, borrow) = overflowing_sub_loop limbs c.order 0 in
      from_int (select_limbs (wrapping_sub32 borrow 1) limbs diff)

  pub sqr : Scalar → Scalar
  sqr a = mul a a

  pub sqr_n : ℕ → Scalar → Scalar
  sqr_n zero a = a
  sqr_n (suc n) a = sqr_n n (sqr a)

  -- `cur`, `cur * base`, `cur * base^2`, ...
  pub powers : ℕ → Scalar → Scalar → List Scalar
  powers zero base cur = []
  powers (suc n) base cur = cur ∷ powers n base (mul cur base)

  -- The table `tbl`: its entry `d` is `self^d`, for `d` from 1 to 15.
  pub table : Scalar → List Scalar
  table self = self ∷ powers 15 self self

  -- The nibbles of `low` below `nib`, the highest first.
  pub nibble_loop : List Scalar → List ℕ → Scalar → ℕ → Scalar → Scalar
  nibble_loop tbl low self zero acc = acc
  nibble_loop tbl low self (suc nib) acc =
      let squared = sqr_n 4 acc in
      let d = nibble low nib in
      nibble_loop tbl low self nib (if d == 0 then squared else mul squared (get_or tbl d self))

  -- The low limbs of the exponent `order - 2`.
  pub low_limbs : ℕ → List ℕ
  low_limbs n = wrapping_sub32 (get_or c.order 0 0) 2 ∷ take (n - 1) (drop 1 c.order)

  pub invert_8 : Scalar → Scalar
  invert_8 t1 =
      let t2 = mul (sqr_n 1 t1) t1 in
      let t3 = mul (sqr_n 1 t2) t1 in
      let t6 = mul (sqr_n 3 t3) t3 in
      let t12 = mul (sqr_n 6 t6) t6 in
      let t15 = mul (sqr_n 3 t12) t3 in
      let t30 = mul (sqr_n 15 t15) t15 in
      let t32 = mul (sqr_n 2 t30) t2 in
      let t64 = mul (sqr_n 32 t32) t32 in
      let acc = sqr_n 32 t32 in
      let acc = mul (sqr_n 64 acc) t64 in nibble_loop (table t1) (low_limbs 4) t1 32 acc

  pub invert_12 : Scalar → Scalar
  invert_12 t1 =
      let t2 = mul (sqr_n 1 t1) t1 in
      let t3 = mul (sqr_n 1 t2) t1 in
      let t6 = mul (sqr_n 3 t3) t3 in
      let t12 = mul (sqr_n 6 t6) t6 in
      let t24 = mul (sqr_n 12 t12) t12 in
      let t48 = mul (sqr_n 24 t24) t24 in
      let t96 = mul (sqr_n 48 t48) t48 in
      let t192 = mul (sqr_n 96 t96) t96 in nibble_loop (table t1) (low_limbs 6) t1 48 t192

  -- The bits of `exp` below `bits`, the highest first.
  pub bit_loop : List ℕ → Scalar → ℕ → Scalar → Scalar
  bit_loop exp self zero acc = acc
  bit_loop exp self (suc bit) acc =
      let squared = sqr acc in
      let set = get_or exp (bit / 32) 0 / 2 ^ (bit % 32) % 2 == 1 in
      bit_loop exp self bit (if set then mul squared self else squared)

  -- Any other limb count: the bits of `order - 2`, the top one being that of `self` itself.
  pub invert_bits : Scalar → Scalar
  invert_bits self = bit_loop (low_limbs limb_count) self (32 * limb_count - 1) self

  pub invert : Scalar → Option Scalar
  invert self =
      let inverse =
        if limb_count == 8
        then invert_8 self
        else if limb_count == 12
        then invert_12 self
        else invert_bits self in
      if is_zero self then none else some inverse
