-- ===== src/Point/Jacobian/Comb/Scan.antt =====
-- The scan of a table in `mul_base` of src/point.rs reads the entry that the digit names.
use mcu_crypto_asm.Base.{
  ℕ, zero, suc, ◌+◌, ◌-◌, ◌*◌, ◌/◌, ◌%◌, ◌^◌, ◌<◌, ◌≤◌, ◌≡◌, refl, ap, ap₂, sym, ◌∙◌, arith, List,
  [], ◌∷◌, length, get_or, replicate, All, bit_or, bit_xor, bit_and-zero, bit_or-zero, bit_or_comm,
  bit_or_sum, bit_and_mask, bit_xor-lt, bit_xor_self, eq_of_bit_xor_zero, ones32, and-ones32,
  agree_at, Bool-cases, inl, inr, ◌==◌, ==_iff, clash, length-replicate,
}
use mcu_crypto_asm.Bignum.Value.{IsLimbs}
use mcu_crypto_asm.Fe.{Fe}
use mcu_crypto_asm.Point.Jacobian.Comb.{Entry, zero_mask, merge, scan, key_bit, comb_digit}

-- The masks of the sixteen words.
pub zero_mask-zero : zero_mask 0 ≡ ones32
unfolding zero_mask
zero_mask-zero = refl

zero_mask-suc : (d : ℕ) → d < 15 → zero_mask (suc d) ≡ 0
unfolding zero_mask
zero_mask-suc d h = agree_at (λ k. zero_mask (suc k)) (λ k. 0) 15 d h refl

pub zero_mask-positive : (d : ℕ) → 0 < d → d < 16 → zero_mask d ≡ 0
zero_mask-positive zero p h = absurd (omega arith)
zero_mask-positive (suc d) p h = zero_mask-suc d (omega arith)

same_mask : (digit : ℕ) → zero_mask (bit_xor digit digit) ≡ ones32
same_mask digit = ap zero_mask (bit_xor_self digit) ∙ zero_mask-zero

other_mask : (j digit : ℕ) → j < 16 → digit < 16 → ¬ (j ≡ digit) → zero_mask (bit_xor j digit) ≡ 0
other_mask j digit lt lt' n =
    let small = bit_xor-lt 4 j digit lt lt' in
    let different : ¬ (bit_xor j digit ≡ 0) = λ e. n (eq_of_bit_xor_zero j digit e) in
    zero_mask-positive (bit_xor j digit) (ground (arith, different)) small

merge-zero : (out entry : Fe) → length out ≡ length entry → merge 0 out entry ≡ out
unfolding merge
merge-zero [] entry n = refl
merge-zero (x ∷ out) [] n = absurd (omega arith)
merge-zero (x ∷ out) (y ∷ entry) n =
    ap₂ ◌∷◌ (ap (bit_or x) (bit_and-zero y) ∙ bit_or-zero x) (merge-zero out entry (omega arith))

merge-ones :
    (n : ℕ) (entry : Fe)
    → length entry ≡ n
    → IsLimbs entry
    → merge ones32 (replicate n 0) entry ≡ entry
unfolding merge
merge-ones zero [] e l = refl
merge-ones (suc n) [] e l = absurd (omega arith)
merge-ones zero (y ∷ entry) e l = absurd (omega arith)
merge-ones (suc n) (y ∷ entry) e (hy, l) =
    ap₂ ◌∷◌ (ap (bit_or 0) (and-ones32 y hy) ∙ bit_or_comm 0 y ∙ bit_or-zero y)
      (merge-ones n entry (omega arith) l)

-- An entry of two elements of `n` limbs.
pub record IsEntry (n : ℕ) (e : Entry) : Type 0 where
  pub size_x : length e.0 ≡ n
  pub size_y : length e.1 ≡ n
  pub limbs_x : IsLimbs e.0
  pub limbs_y : IsLimbs e.1

-- Entries after the digit's change nothing.
scan_past :
    (n : ℕ) (entries : List Entry) (j digit : ℕ) (px py : Fe)
    → All (IsEntry n) entries
    → length px ≡ n
    → length py ≡ n
    → digit < j
    → j + length entries ≤ 16
    → scan entries j digit (px, py) ≡ (px, py)
unfolding scan
scan_past n [] j digit px py h ex ey past fits = refl
scan_past n ((x, y) ∷ entries) j digit px py (he, h) ex ey past fits =
    rw
      (
        other_mask j digit (omega arith) (omega arith) (λ e. omega arith),
        merge-zero px x (ex ∙ sym he.size_x),
        merge-zero py y (ey ∙ sym he.size_y),
      )
      (scan_past n entries (suc j) digit px py h ex ey (omega arith) (omega arith))

scan_from :
    (n : ℕ) (entries : List Entry) (j digit : ℕ) (e : Entry)
    → All (IsEntry n) entries
    → j ≤ digit
    → digit < j + length entries
    → j + length entries ≤ 16
    → scan entries j digit (replicate n 0, replicate n 0) ≡ get_or entries (digit - j) e
unfolding scan
scan_from n [] j digit e h le lt fits = absurd (omega arith)
scan_from n ((x, y) ∷ entries) j digit e (he, h) le lt fits = elim (Bool-cases (j == digit)) [
  | inl t ↦
      let here = (==_iff j digit).0 t in
      let mask = ap (λ q. zero_mask (bit_xor q digit)) here ∙ same_mask digit in
      let first : digit - j ≡ 0 = omega arith in
      rw (mask, first, merge-ones n x he.size_x he.limbs_x, merge-ones n y he.size_y he.limbs_y)
        (scan_past n entries (suc j) digit x y h he.size_x he.size_y (omega arith) (omega arith))
  | inr t ↦
      let elsewhere : ¬ (j ≡ digit) = λ same. clash t ((==_iff j digit).1 same) in
      let later : digit - j ≡ suc (digit - suc j) = omega (arith, elsewhere) in
      let zeros : List ℕ = replicate n 0 in
      let same_x : length zeros ≡ length x = length-replicate n 0 ∙ sym he.size_x in
      let same_y : length zeros ≡ length y = length-replicate n 0 ∙ sym he.size_y in
      rw
        (
          other_mask j digit (omega arith) (omega (arith, lt, fits)) elsewhere,
          later,
          merge-zero zeros x same_x,
          merge-zero zeros y same_y,
        )
        (scan_from n entries (suc j) digit e h (omega (arith, elsewhere)) (omega arith)
          (omega arith))
]

-- The scan of sixteen entries reads the one with the number of the digit.
pub scan_lem :
    (n : ℕ) (entries : List Entry) (digit : ℕ) (e : Entry)
    → All (IsEntry n) entries
    → length entries ≡ 16
    → digit < 16
    → scan entries 0 digit (replicate n 0, replicate n 0) ≡ get_or entries digit e
scan_lem n entries digit e h size lt =
    let same : digit - 0 ≡ digit = omega arith in
    scan_from n entries 0 digit e h (omega arith) (omega arith) (omega arith)
    ∙ ap (λ i. get_or entries i e) same

key_bit-lt : (k : List ℕ) (bit : ℕ) → key_bit k bit < 2
key_bit-lt k bit = omega (arith, bit_and_mask 1 (get_or k (bit / 32) 0 / 2 ^ (bit % 32)))

-- The digit is the number of its bits.
pub comb_digit_lem :
    (k : List ℕ) (d t i : ℕ)
    → comb_digit k d t i
      ≡ key_bit k (t * 4 * d + i)
        + 2 * key_bit k ((t * 4 + 1) * d + i)
        + 4 * key_bit k ((t * 4 + 2) * d + i)
        + 8 * key_bit k ((t * 4 + 3) * d + i)
unfolding comb_digit
comb_digit_lem k d t i =
    let b0 = key_bit k (t * 4 * d + i) in
    let b1 = key_bit k ((t * 4 + 1) * d + i) in
    let b2 = key_bit k ((t * 4 + 2) * d + i) in
    let b3 = key_bit k ((t * 4 + 3) * d + i) in
    let l0 = key_bit-lt k (t * 4 * d + i) in
    let l1 = key_bit-lt k ((t * 4 + 1) * d + i) in
    let l2 = key_bit-lt k ((t * 4 + 2) * d + i) in
    let e0 : bit_or 0 b0 ≡ b0 = bit_or_comm 0 b0 ∙ bit_or-zero b0 in
    let e1 : bit_or b0 (b1 * 2) ≡ b1 * 2 + b0 = bit_or_comm b0 (b1 * 2) ∙ bit_or_sum 1 b1 b0 l0 in
    let e2 : bit_or (b1 * 2 + b0) (b2 * 4) ≡ b2 * 4 + (b1 * 2 + b0) =
      bit_or_comm (b1 * 2 + b0) (b2 * 4) ∙ bit_or_sum 2 b2 (b1 * 2 + b0) (omega arith) in
    let e3 : bit_or (b2 * 4 + (b1 * 2 + b0)) (b3 * 8) ≡ b3 * 8 + (b2 * 4 + (b1 * 2 + b0)) =
      bit_or_comm (b2 * 4 + (b1 * 2 + b0)) (b3 * 8)
      ∙ bit_or_sum 3 b3 (b2 * 4 + (b1 * 2 + b0)) (omega arith) in
    rw (e0, e1, e2, e3) (omega arith)

pub comb_digit-lt : (k : List ℕ) (d t i : ℕ) → comb_digit k d t i < 16
comb_digit-lt k d t i = omega (
  arith,
  comb_digit_lem k d t i,
  key_bit-lt k (t * 4 * d + i),
  key_bit-lt k ((t * 4 + 1) * d + i),
  key_bit-lt k ((t * 4 + 2) * d + i),
  key_bit-lt k ((t * 4 + 3) * d + i),
)
