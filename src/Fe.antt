-- ===== src/Fe.antt =====
-- src/fe.rs on the portable backend: field elements in Montgomery form, as arrays of `N` limbs.
pub mod Domain
pub mod Inverse
pub mod Laws
pub mod Compare
pub mod Root
use mcu_crypto_asm.Base.{ℕ, zero, suc, ◌+◌, ◌-◌, ◌*◌, ◌/◌, ◌%◌, ◌^◌, bit_and, bit_or, bit_xor}
use mcu_crypto_asm.Base.{List, [], ◌∷◌, Bool, true, false, not, ◌||◌, Option, none, some, ltb, ◌==◌}
use mcu_crypto_asm.Base.{if◌then◌else◌, get_or, replicate, wrapping_sub32, u32}
use mcu_crypto_asm.Bignum.{mul_mont, add_mod_n, sub_mod_n, div2_n, flag}
use mcu_crypto_asm.Curve.{Params}

abbrev pub Fe : Type 0
Fe = List ℕ

-- `[1, 0, 0, ...]`, with `n` limbs
pub one_limbs : ℕ → List ℕ
one_limbs zero = []
one_limbs (suc n) = 1 ∷ replicate n 0

pub or_limbs : ℕ → List ℕ → ℕ
or_limbs acc [] = acc
or_limbs acc (w ∷ v) = or_limbs (bit_or acc w) v

-- `diff |= a[i] ^ b[i]`
pub diff_limbs : ℕ → List ℕ → List ℕ → ℕ
diff_limbs acc (x ∷ a) (y ∷ b) = diff_limbs (bit_or acc (bit_xor x y)) a b
diff_limbs acc _ _ = acc

pub is_zero : Fe → Bool
is_zero v = or_limbs 0 v == 0

pub ct_eq : Fe → Fe → Bool
ct_eq a b = diff_limbs 0 a b == 0

-- The powers that the two addition chains share: `self^(2^k - 1)`.
pub record Chain : Type 0 where
  pub t2 : Fe
  pub t3 : Fe
  pub t15 : Fe
  pub t30 : Fe
  pub t32 : Fe

-- `p - 2`, limb by limb; the borrow in is 2.
pub sub_word_loop : List ℕ → ℕ → List ℕ
sub_word_loop [] borrow = []
sub_word_loop (x ∷ p) borrow = wrapping_sub32 x borrow ∷ sub_word_loop p (flag (ltb x borrow))

-- `p + 1`, with the carry in.
pub add_word_loop : List ℕ → ℕ → List ℕ
add_word_loop [] carry = []
add_word_loop (x ∷ p) carry =
    u32 (x + carry) ∷ add_word_loop p (flag (ltb (2 ^ 32 - 1) (x + carry)))

-- The array shifted right by two bits, from the top limb down, and the bits that leave it.
pub quarter : List ℕ → List ℕ × ℕ
quarter [] = ([], 0)
quarter (x ∷ exp) = let (high, c) = quarter exp in (bit_or (x / 2 ^ 2) c ∷ high, u32 (x * 2 ^ 30))

-- The `i`-th group of four bits of an array of limbs.
unfoldable pub nibble : List ℕ → ℕ → ℕ
nibble exp nib = bit_and (get_or exp (nib / 8) 0 / 2 ^ (nib % 8 * 4)) 0xf

module _ (f : Params) where
  pub from_int : List ℕ → Fe
  from_int limbs = mul_mont limbs f.r2 f.p f.n0inv

  pub to_int : Fe → List ℕ
  to_int v = mul_mont v (one_limbs f.n) f.p f.n0inv

  pub mul : Fe → Fe → Fe
  mul a b = mul_mont a b f.p f.n0inv

  pub sqr : Fe → Fe
  sqr a = mul_mont a a f.p f.n0inv

  pub add : Fe → Fe → Fe
  add a b = add_mod_n a b f.p

  pub sub : Fe → Fe → Fe
  sub a b = sub_mod_n a b f.p

  unfoldable pub div2 : Fe → Fe
  div2 a = div2_n a f.p

  pub sqr_n : ℕ → Fe → Fe
  sqr_n zero a = a
  sqr_n (suc n) a = sqr_n n (sqr a)

  pub chain : Fe → Chain
  chain t1 =
      let t2 = mul (sqr_n 1 t1) t1 in
      let t3 = mul (sqr_n 1 t2) t1 in
      let t6 = mul (sqr_n 3 t3) t3 in
      let t12 = mul (sqr_n 6 t6) t6 in
      let t15 = mul (sqr_n 3 t12) t3 in
      let t30 = mul (sqr_n 15 t15) t15 in
      let t32 = mul (sqr_n 2 t30) t2 in record { t2 = t2; t3 = t3; t15 = t15; t30 = t30; t32 = t32 }

  pub invert_8 : Fe → Fe
  invert_8 t1 =
      let c = chain t1 in
      let t60 = mul (sqr_n 30 c.t30) c.t30 in
      let t62 = mul (sqr_n 2 t60) c.t2 in
      let t92 = mul (sqr_n 30 t62) c.t30 in
      let t94 = mul (sqr_n 2 t92) c.t2 in
      let acc = sqr_n 31 c.t32 in
      let acc = mul (sqr_n 1 acc) t1 in
      let acc = sqr_n 96 acc in
      let acc = mul (sqr_n 94 acc) t94 in let acc = sqr_n 1 acc in mul (sqr_n 1 acc) t1

  -- `self^(2^255 - 1)`
  pub chain_255 : Chain → Fe
  chain_255 c =
      let t60 = mul (sqr_n 30 c.t30) c.t30 in
      let t120 = mul (sqr_n 60 t60) t60 in
      let t240 = mul (sqr_n 120 t120) t120 in mul (sqr_n 15 t240) c.t15

  pub invert_12 : Fe → Fe
  invert_12 t1 =
      let c = chain t1 in
      let acc = sqr_n 1 (chain_255 c) in
      let acc = mul (sqr_n 32 acc) c.t32 in
      let acc = sqr_n 64 acc in
      let acc = mul (sqr_n 30 acc) c.t30 in let acc = sqr_n 1 acc in mul (sqr_n 1 acc) t1

  -- `cur`, `cur * base`, `cur * base^2`, ...: the table of `n` powers.
  pub powers : ℕ → Fe → Fe → List Fe
  powers zero base cur = []
  powers (suc n) base cur = cur ∷ powers n base (mul cur base)

  -- The window loop over the nibbles below `nib`, the highest first.
  pub window_loop : List Fe → List ℕ → Fe → ℕ → Fe → Bool → Fe
  window_loop table exp self zero acc started = acc
  window_loop table exp self (suc nib) acc started =
      let squared = if started then sqr_n 4 acc else acc in
      let d = nibble exp nib in
      let t = get_or table (d - 1) self in
      let next = if d == 0 then squared else if started then mul squared t else t in
      window_loop table exp self nib next (started || not (d == 0))

  -- Any other limb count: four bits of `p - 2` at a time.
  pub invert_window : Fe → Fe
  invert_window self =
      window_loop (powers 15 self self) (sub_word_loop f.p 2) self (f.n * 8) self false

  pub invert : Fe → Fe
  invert self =
      if f.n == 8 then invert_8 self else if f.n == 12 then invert_12 self else invert_window self

  pub sqrt_8 : Fe → Fe
  sqrt_8 t1 =
      let acc = sqr_n 32 (chain t1).t32 in
      let acc = mul acc t1 in let acc = sqr_n 96 acc in let acc = mul acc t1 in sqr_n 94 acc

  pub sqrt_12 : Fe → Fe
  sqrt_12 t1 =
      let c = chain t1 in
      let acc = sqr_n 1 (chain_255 c) in
      let acc = mul (sqr_n 32 acc) c.t32 in
      let acc = sqr_n 64 acc in let acc = mul acc t1 in sqr_n 30 acc

  -- The bits of the exponent below `bits`, the highest first.
  pub bit_loop : List ℕ → Fe → ℕ → Fe → Bool → Fe
  bit_loop exp self zero acc started = acc
  bit_loop exp self (suc bit) acc started =
      let squared = if started then sqr acc else acc in
      let set = get_or exp (bit / 32) 0 / 2 ^ (bit % 32) % 2 == 1 in
      let next = if set then (if started then mul squared self else self) else squared in
      bit_loop exp self bit next (started || set)

  pub sqrt_bits : Fe → Fe
  sqrt_bits self = bit_loop (quarter (add_word_loop f.p 1)).0 self (f.n * 32) f.one false

  -- A square root of `self`, if it has one.
  pub sqrt : Fe → Option Fe
  sqrt self =
      let cand =
        if f.n == 8 then sqrt_8 self else if f.n == 12 then sqrt_12 self else sqrt_bits self in
      if is_zero self
      then some (replicate f.n 0)
      else if ct_eq (sqr cand) self
      then some cand
      else none
