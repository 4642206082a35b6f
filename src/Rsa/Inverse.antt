-- ===== src/Rsa/Inverse.antt =====
-- `inv32` of src/rsa.rs: Newton's iteration modulo `2 ^ 32`.
use mcu_crypto_asm.Base.{
  ℕ, zero, suc, ◌⊎◌, ◌+◌, ◌-◌, ◌*◌, ◌/◌, ◌%◌, ◌^◌, ◌<◌, ◌≡◌, refl, ap, sym, ◌∙◌, arith, Cong,
  Cong-add_mul, Cong-mul, Bool-cases, inl, inr, ltb, u32, wrapping_sub32, wrapping_neg32,
}
use native.Mathlib.Nat.{div-add-mod, mod-eq_of_lt}
use mcu_crypto_asm.Rsa.{newton, inv32}

-- The product with the word, in `u32`.
abbrev product : ℕ → ℕ → ℕ
product n x = u32 (n * x)

product-newton :
    (n x : ℕ) → product n (newton n x) ≡ u32 (product n x * wrapping_sub32 2 (product n x))
unfolding newton
product-newton n x =
    let w = wrapping_sub32 2 (product n x) in
    Cong-mul (2 ^ 32) n n (u32 (x * w)) (x * w) refl (omega arith)
    ∙ ap (λ t. t % 2 ^ 32) (omega arith)
    ∙ Cong-mul (2 ^ 32) (n * x) (product n x) w w (omega arith) refl

-- The square of an error.
squared :
    (m t y w c : ℕ)
    → y ≡ 1 + m * t
    → y + w ≡ 2 + c * (m * m)
    → y * w + (t * t) * (m * m) ≡ 1 + (c * y) * (m * m)
squared m t y w c e f =
    omega
      (arith, e, f, ap (λ (k : ℕ). k * y) f, ap (λ (k : ℕ). k * y) e, ap (λ (k : ℕ). m * t * k) e)

square_mod : (m y w c : ℕ) → 1 < m → y % m ≡ 1 → y + w ≡ 2 + c * (m * m) → Cong (m * m) (y * w) 1
square_mod m y w c big e f =
    let t = y / m in
    sym (Cong-add_mul (m * m) (y * w) (t * t))
    ∙ ap (λ k. k % (m * m)) (squared m t y w c (omega (arith, e, div-add-mod y m)) f)
    ∙ Cong-add_mul (m * m) 1 (c * y)

twos :
    (m k y : ℕ)
    → m * m * k ≡ 2 ^ 32
    → y < 2 ^ 32
    → (c : ℕ) × (y + wrapping_sub32 2 y ≡ 2 + c * (m * m))
twos m k y e h = elim (Bool-cases (ltb 2 y)) [
  | inl big ↦ (k, ground (arith, e, h))
  | inr small ↦ (0, ground (arith, h))
]

-- Each turn doubles the number of right bits.
newton-doubles :
    (m k n x : ℕ)
    → 1 < m
    → m * m * k ≡ 2 ^ 32
    → product n x % m ≡ 1
    → product n (newton n x) % (m * m) ≡ 1
newton-doubles m k n x big e h =
    let y = product n x in
    let (c, two) = twos m k y e (omega arith) in
    ap (λ t. t % (m * m)) (product-newton n x)
    ∙ word_mod (y * wrapping_sub32 2 y)
    ∙ square_mod m y (wrapping_sub32 2 y) c big h two
    ∙ mod-eq_of_lt {n = 1} {m = m * m} (more m big)
  where
    word_mod : (t : ℕ) → u32 t % (m * m) ≡ t % (m * m)
    word_mod t =
        sym (Cong-add_mul (m * m) (u32 t) (t / 2 ^ 32 * k))
        ∙ ap (λ v. v % (m * m)) (omega (arith, ap (λ (v : ℕ). t / 2 ^ 32 * v) e))

    more : (m : ℕ) → 1 < m → 1 < m * m
    more m big = grind arith

newton-lt : (n x : ℕ) → newton n x < 2 ^ 32
unfolding newton
newton-lt n x = omega arith

-- Of every odd word `inv32` is the negated inverse modulo `2 ^ 32`.
pub inv32-inverse : (n : ℕ) → n < 2 ^ 32 → n % 2 ≡ 1 → (n * inv32 n + 1) % 2 ^ 32 ≡ 0
unfolding inv32
inv32-inverse n h odd =
    let x0 = wrapping_sub32 2 n in
    let s0 : product n x0 % 4 ≡ 1 = first in
    let s1 = newton-doubles 4 (2 ^ 28) n x0 (omega arith) refl s0 in
    let x1 = newton n x0 in
    let s2 = newton-doubles 16 (2 ^ 24) n x1 (omega arith) refl s1 in
    let x2 = newton n x1 in
    let s3 = newton-doubles 256 (2 ^ 16) n x2 (omega arith) refl s2 in
    let x3 = newton n x2 in
    let s4 = newton-doubles 65536 1 n x3 (omega arith) refl s3 in
    negate (newton n x3) (newton-lt n x3) s4
  where
    first : product n (wrapping_sub32 2 n) % 4 ≡ 1
    first =
        let w = wrapping_sub32 2 n in
        let e : product n w % 4 ≡ (n % 4) * (w % 4) % 4 =
          omega arith ∙ Cong-mul 4 n (n % 4) w (w % 4) (omega arith) (omega arith) in
        e ∙ elim (quarter w refl) [ inl q ↦ rw (q.0, q.1) refl | inr q ↦ rw (q.0, q.1) refl ]
      where
        quarter :
            (w : ℕ)
            → w ≡ wrapping_sub32 2 n
            → ((n % 4 ≡ 1) × (w % 4 ≡ 1)) ⊎ ((n % 4 ≡ 3) × (w % 4 ≡ 3))
        quarter w e = ground (arith, odd, h)

    split : (x : ℕ) → x < 2 ^ 32 → (2 ^ 32 - x) + x ≡ 2 ^ 32
    split x small = omega arith

    nonzero : (x : ℕ) → x < 2 ^ 32 → product n x % 2 ^ 32 ≡ 1 → wrapping_neg32 x ≡ 2 ^ 32 - x
    nonzero zero small e = absurd (omega (arith, e))
    nonzero (suc x) small e = omega arith

    negate :
        (x : ℕ) → x < 2 ^ 32 → product n x % 2 ^ 32 ≡ 1 → (n * wrapping_neg32 x + 1) % 2 ^ 32 ≡ 0
    negate x small e =
        let cancel : n * (2 ^ 32 - x) + n * x ≡ n * 2 ^ 32 =
          omega (arith, ap (λ (t : ℕ). n * t) (split x small)) in
        let word : wrapping_neg32 x ≡ 2 ^ 32 - x = nonzero x small e in
        ap (λ t. (n * t + 1) % 2 ^ 32) word ∙ omega (arith, cancel, e)
