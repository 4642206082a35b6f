-- ===== src/Bignum/MulMont.antt =====
-- The outer loop of CIOS, and `mul_mont`, of src/backend/portable.rs.
use mcu_crypto_asm.Base.{
  ℕ, zero, suc, ◌+◌, ◌-◌, ◌*◌, ◌/◌, ◌%◌, ◌^◌, ◌<◌, ◌≤◌, ◌≡◌, refl, ap, sym, ◌∙◌,
}
use mcu_crypto_asm.Base.{List, [], ◌∷◌, length, arith, u32, u64}
use mcu_crypto_asm.Bignum.{
  mac_loop, Chain, Acc, reduce_word, mont_round, mont_loop, zeros, mul_mont, cond_sub_p,
}
use mcu_crypto_asm.Bignum.Value.{value, radix, IsLimbs, value-lt-radix}
use mcu_crypto_asm.Bignum.Reduce.{Holds, cond_sub_p-Holds}
use mcu_crypto_asm.Bignum.Mont.{mac_loop_lem, reduce_word_lem, IsAcc, total, IsNegInverse}

-- `reduce_word` on an array known to be nonempty: some multiple `m * p` clears the low word.
pub record Reduced (n s v : ℕ) (r : Acc) : Type 0 where
  pub acc : IsAcc n r
  pub m : ℕ
  pub m_small : m < 2 ^ 32
  pub sum : 2 ^ 32 * total r ≡ s + m * v

reduce_word-Reduced :
    (t p : List ℕ) (tn tn1 n0inv : ℕ)
    → length t ≡ length p
    → 0 < length p
    → IsLimbs t
    → IsLimbs p
    → tn < 2 ^ 32
    → tn1 ≤ 1
    → IsNegInverse p n0inv
    → Reduced
        (length p)
        (value t + radix (length p) * tn + 2 ^ 32 * (radix (length p) * tn1))
        (value p)
        (reduce_word t tn tn1 p n0inv)
reduce_word-Reduced [] p tn tn1 n0inv n pos ht hp k l inv = absurd (omega arith)
reduce_word-Reduced (t0 ∷ t) [] tn tn1 n0inv n pos ht hp k l inv = absurd (omega arith)
reduce_word-Reduced (t0 ∷ t) (p0 ∷ p) tn tn1 n0inv n pos ht hp k l inv =
    let r = reduce_word_lem t0 t tn tn1 p0 p n0inv (omega arith) ht hp k l inv in
    record { acc = r.0; m = u32 (t0 * n0inv); m_small = omega arith; sum = r.1 }

module _ (a p : List ℕ) (n0inv : ℕ) (size : length a ≡ length p) (pos : 0 < length p)
    (ha : IsLimbs a) (hp : IsLimbs p) (inv : IsNegInverse p n0inv) (small : value a ≤ value p) where
  -- The loop's invariant: `n` words and a top word of 0 or 1, with a value below `2 * p`.
  pub record Bounded (t : Acc) : Type 0 where
    pub acc : IsAcc (length p) t
    pub below : total t < value p + value p

  top_bit : {t : Acc} → Bounded t → t.top ≤ 1
  top_bit {t} b =
      top_small (radix (length p)) t.top
        (omega (arith, b.below, value-lt-radix p hp, ap (λ k. radix k * t.top) b.acc.size))
    where
      top_small : (r top : ℕ) → r * top < r + r → top ≤ 1
      top_small r zero h = omega arith
      top_small r (suc zero) h = omega arith
      top_small r (suc (suc k)) h = absurd (omega arith)

  -- One round adds `a * bi` and a multiple of `p`, and divides by `2 ^ 32`.
  pub mont_round_lem :
      (t : Acc) (bi : ℕ)
      → Bounded t
      → bi < 2 ^ 32
      → Reduced (length p) (total t + value a * bi) (value p) (mont_round a p n0inv t bi)
  unfolding mont_round
  mont_round_lem t bi b hb =
      let row : Chain = mac_loop a t.low bi 0 in
      let x = u64 (t.top + row.1) in
      let ih = mac_loop_lem a t.low bi 0 (size ∙ sym b.acc.size) ha b.acc.limbs hb (omega arith) in
      let bit = top_bit b in
      let r =
        reduce_word-Reduced row.0 p (u32 x) (x / 2 ^ 32) n0inv (ih.0.size ∙ b.acc.size) pos
          ih.0.limbs hp (omega arith) (omega (arith, ih.0.carry)) inv in
      let words : u32 x + 2 ^ 32 * (x / 2 ^ 32) ≡ t.top + row.1 = omega (arith, ih.0.carry) in
      record {
        acc = r.acc;
        m = r.m;
        m_small = r.m_small;
        sum = omega (
          arith,
          r.sum,
          ih.1,
          ap (λ k. radix (length p) * k) words,
          ap (λ k. radix k * t.top) b.acc.size,
          ap (λ k. radix k * row.1) b.acc.size,
        );
      }

  round_below :
      (s bi m v : ℕ)
      → 2 ^ 32 * v ≡ s + value a * bi + m * value p
      → s < value p + value p
      → bi < 2 ^ 32
      → m < 2 ^ 32
      → v < value p + value p
  round_below s bi m v e h hb hm =
      omega (arith, bounded (value a) bi small hb, bounded (value p) m (omega arith) hm)
    where
      bounded : (w k : ℕ) → w ≤ value p → k < 2 ^ 32 → w * k ≤ value p * (2 ^ 32 - 1)
      bounded w k h l = grind arith

  pub mont_round-Bounded :
      (t : Acc) (bi : ℕ) → Bounded t → bi < 2 ^ 32 → Bounded (mont_round a p n0inv t bi)
  mont_round-Bounded t bi b hb =
      let r = mont_round_lem t bi b hb in
      record {
        acc = r.acc;
        below =
            round_below (total t) bi r.m (total (mont_round a p n0inv t bi)) r.sum b.below hb
              r.m_small;
      }

  -- What the loop has added when it ends: `a` times the limbs that it read, and some `q * p`.
  pub record Product (s : ℕ) (b : List ℕ) (r : Acc) : Type 0 where
    pub bounded : Bounded r
    pub q : ℕ
    pub sum : radix (length b) * total r ≡ s + value a * value b + q * value p

  pub mont_loop-Product :
      (b : List ℕ) (t : Acc) → Bounded t → IsLimbs b → Product (total t) b (mont_loop a p n0inv b t)
  unfolding mont_loop
  mont_loop-Product [] t h hb = record { bounded = h; q = 0; sum = omega arith }
  mont_loop-Product (bi ∷ b) t h (hbi, hb) =
      let r = mont_round_lem t bi h hbi in
      let ih = mont_loop-Product b (mont_round a p n0inv t bi) (mont_round-Bounded t bi h hbi) hb in
      record { bounded = ih.bounded; q = r.m + 2 ^ 32 * ih.q; sum = omega (arith, r.sum, ih.sum) }

  zeros_lem :
      (c : List ℕ) → (length (zeros c) ≡ length c) × IsLimbs (zeros c) × (value (zeros c) ≡ 0)
  unfolding zeros
  zeros_lem [] = (refl, tt, refl)
  zeros_lem (x ∷ c) = let (n, l, v) = zeros_lem c in (ap suc n, (omega arith, l), omega (arith, v))

  start-Bounded : 0 < value p → Bounded (record { low = zeros a; top = 0 })
  start-Bounded some =
      let (zn, zl, zv) = zeros_lem a in
      record { acc = record { size = zn ∙ size; limbs = zl }; below = omega (arith, zv, some) }

  -- The words when the loop ends.
  pub mont_loop-Bounded :
      (b : List ℕ)
      → IsLimbs b
      → 0 < value p
      → (let t = mont_loop a p n0inv b (record { low = zeros a; top = 0 }) in
          IsAcc (length p) t × (t.top ≤ 1))
  mont_loop-Bounded b hb some =
      let t = mont_loop a p n0inv b (record { low = zeros a; top = 0 }) in
      let r =
        (mont_loop-Product b (record { low = zeros a; top = 0 }) (start-Bounded some) hb).bounded in
      (r.acc, top_bit r)

  -- For operands of as many limbs as an odd modulus `p`, the first at most `p`, `mul_mont` writes
  -- a reduced array of limbs with a value `v % p` where `R * v` is `a * b` plus a multiple of
  -- `p`.
  pub mul_mont-Product :
      (b : List ℕ)
      → IsLimbs b
      → 0 < value p
      → (v q : ℕ) × (radix (length b) * v ≡ value a * value b + q * value p)
        × Holds (length p) (v % value p) (mul_mont a b p n0inv)
  unfolding mul_mont
  mul_mont-Product b hb p_pos =
      let zv = (zeros_lem a).2 in
      let start : Acc = record { low = zeros a; top = 0 } in
      let begun : Bounded start = start-Bounded p_pos in
      let r = mont_loop-Product b start begun hb in
      let t = mont_loop a p n0inv b start in
      (
        total t,
        r.q,
        omega (arith, r.sum, zv),
        ap_size t r.bounded.acc.size (
            cond_sub_p-Holds t.low t.top p (total t) r.bounded.acc.size r.bounded.acc.limbs hp
              (top_bit r.bounded) refl r.bounded.below),
      )
    where
      ap_size :
          (t : Acc)
          → length t.low ≡ length p
          → Holds (length t.low) (total t % value p) (cond_sub_p t.low t.top p)
          → Holds (length p) (total t % value p) (cond_sub_p t.low t.top p)
      ap_size t e h = record { size = h.size ∙ e; limbs = h.limbs; number = h.number }
