-- ===== src/Rsa/Exponent.antt =====
-- The exponent of src/rsa.rs: the number that its bytes stand for, and the search for its first bit.
use mcu_crypto_asm.Base.{
  ℕ, zero, suc, ◌+◌, ◌-◌, ◌*◌, ◌/◌, ◌%◌, ◌^◌, ◌<◌, ◌≤◌, ◌≡◌, ◌⊎◌, inl, inr, refl, ap, ap₂, ◌∙◌,
  List, [], ◌∷◌, length, arith, get_or, Bool, true, false, not, Bool-cases, ◌==◌, ==_iff, min,
  clash,
}
use mcu_crypto_asm.Base.{bit_and, bit_and_low, bit_and_mask}
use native.Mathlib.Nat.{pow-suc, div-div-eq-div-mul, one-le-pow}
use mcu_crypto_asm.Bytes.{IsBytes}
use mcu_crypto_asm.Rsa.{skip_zeros, bit_at, find_bit}

-- Big-endian bytes.
unfoldable pub be_value : List ℕ → ℕ
be_value [] = 0
be_value (x ∷ e) = x * 2 ^ (length e * 8) + be_value e

unfoldable pub digit : Bool → ℕ
digit true = 1
digit false = 0

-- The number of the first bits.
unfoldable pub prefix : List ℕ → ℕ → ℕ
prefix e zero = 0
prefix e (suc k) = 2 * prefix e k + digit (bit_at e k)

bit_and_power : (k x : ℕ) → bit_and x (2 ^ k) ≡ x / 2 ^ k % 2 * 2 ^ k
bit_and_power zero x = bit_and_mask 1 x ∙ omega arith
bit_and_power (suc k) x =
    let half : 2 ^ suc k / 2 ≡ 2 ^ k = omega (arith, pow-suc 2 k) in
    let even : 2 ^ suc k % 2 ≡ 0 = omega (arith, pow-suc 2 k) in
    let whole : x / 2 / 2 ^ k ≡ x / 2 ^ suc k =
      div-div-eq-div-mul x 2 (2 ^ k) ∙ ap (λ m. x / m) (omega (arith, pow-suc 2 k)) in
    bit_and_low x (2 ^ suc k)
    ∙ ap₂ (λ h m. bit_and (x / 2) h * 2 + min (x % 2) m) half even
    ∙ ap (λ t. t * 2 + min (x % 2) 0) (bit_and_power k (x / 2))
    ∙ omega (
      arith,
      ap (λ (t : ℕ). t % 2 * 2 ^ k * 2) whole,
      ap (λ (t : ℕ). x / 2 ^ suc k % 2 * t) (pow-suc 2 k),
    )

masked_digit : (x k : ℕ) → digit (not (bit_and x (2 ^ k) == 0)) ≡ x / 2 ^ k % 2
unfolding digit
masked_digit x k =
    let b = x / 2 ^ k % 2 in
    let value : bit_and x (2 ^ k) ≡ b * 2 ^ k = bit_and_power k x in
    elim (Bool-cases (bit_and x (2 ^ k) == 0)) [
      | inl clear ↦ rw clear (
          none b (2 ^ k) (one-le-pow k 2 (omega arith))
            (omega (arith, value, (==_iff (bit_and x (2 ^ k)) 0).0 clear)))
      | inr some ↦ rw some (one b (omega arith) (nonzero b value some))
    ]
  where
    none : (b m : ℕ) → 1 ≤ m → b * m ≡ 0 → 0 ≡ b
    none zero m h e = refl
    none (suc b) m h e = absurd (grind arith)

    one : (b : ℕ) → b < 2 → 0 < b → 1 ≡ b
    one b h k = omega arith

    nonzero : (b : ℕ) → bit_and x (2 ^ k) ≡ b * 2 ^ k → (bit_and x (2 ^ k) == 0) ≡ false → 0 < b
    nonzero zero e some =
        let none : bit_and x (2 ^ k) ≡ 0 = omega (arith, e) in
        absurd (clash some ((==_iff (bit_and x (2 ^ k)) 0).1 none))
    nonzero (suc b) e some = omega arith

shifted : (i : ℕ) → i < 8 → 0x80 / 2 ^ i ≡ 2 ^ (7 - i)
shifted zero h = refl
shifted (suc zero) h = refl
shifted (suc (suc zero)) h = refl
shifted (suc (suc (suc zero))) h = refl
shifted (suc (suc (suc (suc zero)))) h = refl
shifted (suc (suc (suc (suc (suc zero))))) h = refl
shifted (suc (suc (suc (suc (suc (suc zero)))))) h = refl
shifted (suc (suc (suc (suc (suc (suc (suc zero))))))) h = refl
shifted (suc (suc (suc (suc (suc (suc (suc (suc i)))))))) h = absurd (omega arith)

-- The digit at a position, by the byte that holds it.
pub bit_at-digit :
    (e : List ℕ) (pos : ℕ) → digit (bit_at e pos) ≡ get_or e (pos / 8) 0 / 2 ^ (7 - pos % 8) % 2
unfolding bit_at
bit_at-digit e pos =
    ap (λ m. digit (not (bit_and (get_or e (pos / 8) 0) m == 0))) (shifted (pos % 8) (omega arith))
    ∙ masked_digit (get_or e (pos / 8) 0) (7 - pos % 8)

-- One byte more in front.
bit_at-shift : (x : ℕ) (e : List ℕ) (k : ℕ) → bit_at (x ∷ e) (8 + k) ≡ bit_at e k
unfolding bit_at
bit_at-shift x e k =
    let q : (8 + k) / 8 ≡ suc (k / 8) = omega arith in
    let r : (8 + k) % 8 ≡ k % 8 = omega arith in rw (q, r) refl

prefix-shift :
    (x : ℕ) (e : List ℕ) (k : ℕ) → x < 2 ^ 8 → prefix (x ∷ e) (8 + k) ≡ x * 2 ^ k + prefix e k
unfolding prefix
prefix-shift x e zero h = omega (arith, at 0, at 1, at 2, at 3, at 4, at 5, at 6, at 7)
  where
    at : (i : ℕ) → digit (bit_at (x ∷ e) i) ≡ get_or (x ∷ e) (i / 8) 0 / 2 ^ (7 - i % 8) % 2
    at i = bit_at-digit (x ∷ e) i
prefix-shift x e (suc k) h =
    let next : 8 + suc k ≡ suc (8 + k) = omega arith in
    ap (prefix (x ∷ e)) next
    ∙ omega (
      arith,
      prefix-shift x e k h,
      ap digit (bit_at-shift x e k),
      ap (λ (t : ℕ). x * t) (pow-suc 2 k),
    )

-- All the bits give the exponent.
pub prefix-be_value : (e : List ℕ) → IsBytes e → prefix e (length e * 8) ≡ be_value e
unfolding prefix be_value
prefix-be_value [] h = refl
prefix-be_value (x ∷ e) (hx, h) =
    let next : suc (length e) * 8 ≡ 8 + length e * 8 = omega arith in
    ap (prefix (x ∷ e)) next
    ∙ prefix-shift x e (length e * 8) hx
    ∙ ap (λ t. x * 2 ^ (length e * 8) + t) (prefix-be_value e h)

-- Zeros in front change nothing.
pub be_value-skip_zeros : (e : List ℕ) → be_value (skip_zeros e) ≡ be_value e
unfolding skip_zeros be_value
be_value-skip_zeros [] = refl
be_value-skip_zeros (x ∷ []) = refl
be_value-skip_zeros (x ∷ y ∷ e) = elim (Bool-cases (x == 0)) [
  | inl leading ↦
      let none : x ≡ 0 = (==_iff x 0).0 leading in
      rw (leading, skip_zeros)
        (be_value-skip_zeros (y ∷ e)
          ∙ omega (arith, ap (λ (t : ℕ). t * 2 ^ (length (y ∷ e) * 8)) none))
  | inr some ↦ rw (some, skip_zeros) refl
]

pub skip_zeros-IsBytes : (e : List ℕ) → IsBytes e → IsBytes (skip_zeros e)
unfolding skip_zeros
skip_zeros-IsBytes [] h = h
skip_zeros-IsBytes (x ∷ []) h = h
skip_zeros-IsBytes (x ∷ y ∷ e) h = elim (Bool-cases (x == 0)) [
  | inl leading ↦ rw (leading, skip_zeros) (skip_zeros-IsBytes (y ∷ e) h.1)
  | inr some ↦ rw (some, skip_zeros) h
]

-- The search ends at the first bit that is set, or at the end.
pub find_bit-first :
    (n : ℕ) (e : List ℕ) (pos : ℕ)
    → prefix e pos ≡ 0
    → (prefix e (find_bit n e pos) ≡ 0)
      × (find_bit n e pos ≤ pos + n)
      × ((bit_at e (find_bit n e pos) ≡ true) ⊎ (find_bit n e pos ≡ pos + n))
unfolding find_bit prefix digit
find_bit-first zero e pos h = (h, omega arith, inr (omega arith))
find_bit-first (suc n) e pos h = elim (Bool-cases (bit_at e pos)) [
  | inl here ↦ rw (here, find_bit) (h, omega arith, inl here)
  | inr later ↦
      let still : prefix e (pos + 1) ≡ 0 =
        let next : pos + 1 ≡ suc pos = omega arith in
        ap (prefix e) next ∙ omega (arith, h, ap digit later) in
      let (low, within, found) = find_bit-first n e (pos + 1) still in
      rw (later, find_bit)
        (
          low,
          omega (arith, within),
          (elim found [ inl b ↦ inl b | inr end ↦ inr (end ∙ omega arith) ]),
        )
]
