-- ===== src/Bignum/Mont.antt =====
-- The rounds of the CIOS loop of `mul_mont`, src/backend/portable.rs.
use mcu_crypto_asm.Base.{
  ℕ, suc, ◌+◌, ◌-◌, ◌*◌, ◌/◌, ◌%◌, ◌^◌, ◌<◌, ◌≤◌, ◌≡◌, refl, ap, ap₂, sym, ◌∙◌,
}
use mcu_crypto_asm.Base.{List, [], ◌∷◌, ◌++◌, length, length-append, arith, u32, u64}
use mcu_crypto_asm.Bignum.{mac_loop, Chain, Acc, reduce_word}
use mcu_crypto_asm.Bignum.{low_limb}
use mcu_crypto_asm.Bignum.Value.{value, radix, IsLimbs, value-append, IsLimbs-append}

-- One step of a row never leaves 64 bits.
mac_bound :
    (x y w c : ℕ) → x < 2 ^ 32 → y < 2 ^ 32 → w < 2 ^ 32 → c < 2 ^ 32 → x * y + w + c < 2 ^ 64
mac_bound x y w c hx hy hw hc = omega (arith, square x y hx hy)
  where
    square : (x y : ℕ) → x < 2 ^ 32 → y < 2 ^ 32 → x * y ≤ (2 ^ 32 - 1) * (2 ^ 32 - 1)
    square x y hx hy = grind arith

pub record IsRow (n : ℕ) (r : Chain) : Type 0 where
  pub size : length r.0 ≡ n
  pub limbs : IsLimbs r.0
  pub carry : r.1 < 2 ^ 32

-- A row adds `a * bi + c` to `t`.
pub mac_loop_lem :
    (a t : List ℕ) (bi c : ℕ)
    → length a ≡ length t
    → IsLimbs a
    → IsLimbs t
    → bi < 2 ^ 32
    → c < 2 ^ 32
    → IsRow (length t) (mac_loop a t bi c)
      × (value (mac_loop a t bi c).0 + radix (length t) * (mac_loop a t bi c).1
          ≡ value t + value a * bi + c)
unfolding mac_loop
mac_loop_lem [] [] bi c n ha ht hb hc =
    (record { size = refl; limbs = tt; carry = hc }, omega arith)
mac_loop_lem [] (w ∷ t) bi c n ha ht hb hc = absurd (omega arith)
mac_loop_lem (x ∷ a) [] bi c n ha ht hb hc = absurd (omega arith)
mac_loop_lem (x ∷ a) (w ∷ t) bi c n (hx, ha) (hw, ht) hb hc =
    let fits = mac_bound x bi w c hx hb hw hc in
    let ih =
      mac_loop_lem a t bi (u64 (x * bi + w + c) / 2 ^ 32) (omega arith) ha ht hb (omega arith) in
    (
      record { size = ap suc ih.0.size; limbs = (omega arith, ih.0.limbs); carry = ih.0.carry },
      omega (arith, ih.1, fits),
    )

-- `n0inv` is `-p^-1` modulo `2 ^ 32`.
abbrev pub IsNegInverse : List ℕ → ℕ → Type 0
IsNegInverse p n0inv = (low_limb p * n0inv + 1) % 2 ^ 32 ≡ 0

-- The chosen multiple of `p` clears the lowest word.
low_word_clears :
    (t0 p0 n0inv : ℕ) → (p0 * n0inv + 1) % 2 ^ 32 ≡ 0 → (u32 (t0 * n0inv) * p0 + t0) % 2 ^ 32 ≡ 0
low_word_clears t0 p0 n0inv h =
    clears (t0 * n0inv / 2 ^ 32) (u32 (t0 * n0inv)) ((p0 * n0inv + 1) / 2 ^ 32) (omega arith)
      (omega arith)
  where
    clears :
        (q m k : ℕ)
        → t0 * n0inv ≡ 2 ^ 32 * q + m
        → p0 * n0inv + 1 ≡ 2 ^ 32 * k
        → (m * p0 + t0) % 2 ^ 32 ≡ 0
    clears q m k e f = omega (arith, ap (λ (x : ℕ). x * p0) e, ap (λ (x : ℕ). t0 * x) f)

abbrev pub total : Acc → ℕ
total t = value t.low + radix (length t.low) * t.top

pub record IsAcc (n : ℕ) (t : Acc) : Type 0 where
  pub size : length t.low ≡ n
  pub limbs : IsLimbs t.low

reduce_sum :
    (r low c vt vp m c0 p0 t0 x0 x1 tn tn1 : ℕ)
    → low + r * c ≡ vt + vp * m + c0
    → 2 ^ 32 * c0 ≡ m * p0 + t0
    → x0 + 2 ^ 32 * x1 ≡ tn + c
    → 2 ^ 32 * ((low + r * x0) + 2 ^ 32 * r * (tn1 + x1))
      ≡ (t0 + 2 ^ 32 * vt) + 2 ^ 32 * r * tn + 2 ^ 32 * (2 ^ 32 * r * tn1) + m * (p0 + 2 ^ 32 * vp)
reduce_sum r low c vt vp m c0 p0 t0 x0 x1 tn tn1 e f g =
    omega (arith, e, f, ap (λ (k : ℕ). r * k) g)

module _ (t0 : ℕ) (t : List ℕ) (tn tn1 p0 : ℕ) (p : List ℕ) (n0inv : ℕ) where
  abbrev factor : ℕ
  factor = u32 (t0 * n0inv)

  abbrev row : Chain
  row = mac_loop p t factor (u64 (factor * p0 + t0) / 2 ^ 32)

  -- One word of the reduction: `(t + m * p) / 2 ^ 32`.
  pub reduce_word_lem :
      length t ≡ length p
      → IsLimbs (t0 ∷ t)
      → IsLimbs (p0 ∷ p)
      → tn < 2 ^ 32
      → tn1 ≤ 1
      → (p0 * n0inv + 1) % 2 ^ 32 ≡ 0
      → IsAcc (suc (length p)) (reduce_word (t0 ∷ t) tn tn1 (p0 ∷ p) n0inv)
        × (2 ^ 32 * total (reduce_word (t0 ∷ t) tn tn1 (p0 ∷ p) n0inv)
            ≡ value (t0 ∷ t)
              + radix (suc (length p)) * tn
              + 2 ^ 32 * (radix (suc (length p)) * tn1)
              + factor * value (p0 ∷ p))
  unfolding reduce_word
  reduce_word_lem n (ht0, ht) (hp0, hp) htn htn1 inv =
      let fits : factor * p0 + t0 + 0 < 2 ^ 64 =
        mac_bound factor p0 t0 0 (omega arith) hp0 ht0 (omega arith) in
      let clear = low_word_clears t0 p0 n0inv inv in
      let ih =
        mac_loop_lem p t factor (u64 (factor * p0 + t0) / 2 ^ 32) (sym n) hp ht (omega arith)
          (omega arith) in
      let size = ih.0.size ∙ n in
      let x = u64 (tn + row.1) in
      let low_size : length (row.0 ++ (u32 x ∷ [])) ≡ suc (length p) =
        length-append row.0 (u32 x ∷ []) ∙ omega (arith, size) in
      let low_value : value (row.0 ++ (u32 x ∷ [])) ≡ value row.0 + radix (length p) * u32 x =
        value-append row.0 (u32 x ∷ []) ∙ omega (arith, ap (λ k. radix k * u32 x) size) in
      let top : u32 (tn1 + x / 2 ^ 32) ≡ tn1 + x / 2 ^ 32 = omega (arith, ih.0.carry) in
      (
        record { size = low_size; limbs = IsLimbs-append row.0 _ ih.0.limbs (omega arith, tt) },
        ap₂ (λ v w. 2 ^ 32 * (v + w)) low_value (ap₂ (λ k w. radix k * w) low_size top)
            ∙ reduce_sum (radix (length p)) (value row.0) row.1 (value t) (value p) factor
                (u64 (factor * p0 + t0) / 2 ^ 32) p0 t0 (u32 x) (x / 2 ^ 32) tn tn1
                (omega (arith, ih.1, ap (λ k. radix k * row.1) n)) (omega (arith, fits, clear))
                (omega (arith, ih.0.carry)),
      )
