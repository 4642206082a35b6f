-- ===== src/Base/Bits.antt =====
-- Laws of `&`, `|` and `^` on machine words, from the digits that the native operations mean.
use Prim.Native.Nat.{min, max, differ, digits, bitwise, bit_and, bit_or, bit_xor}
use Prim.Native.Nat.{bit_and-bitwise, bit_or-bitwise, bit_xor-bitwise}
use Prim.Native.Nat.{ℕ, zero, suc, ◌+◌, ◌-◌, ◌*◌, ◌/◌, ◌%◌, ◌^◌, ◌≤◌, ◌<◌}
use mathlib.Core.Path.{◌≡◌, refl, ap, sym, ◌∙◌}
use native.Mathlib.Nat.{le_refl, pow-suc, one-le-pow}
use native.Mathlib.Omega.{arith}

-- A digit more to go changes nothing once all of the first number's are counted.
module _ (z : ℕ → ℕ) (g : ℕ → ℕ → ℕ) where
  one_more : (count x y : ℕ) → x ≤ count → digits z g (suc count) x y ≡ digits z g count x y
  one_more (suc count) (suc x) y h = rw (one_more count (suc x / 2) (y / 2) (omega arith))
  one_more (suc count) zero y h = refl
  one_more zero (suc x) y h = absurd (omega arith)
  one_more zero zero y h = refl

  more : (extra count x y : ℕ) → extra + x ≡ count → digits z g count x y ≡ digits z g x x y
  more zero count x y e = ap (λ k. digits z g k x y) (omega arith)
  more (suc extra) zero x y e = absurd (omega arith)
  more (suc extra) (suc count) x y e =
      one_more count x y (omega arith) ∙ more extra count x y (omega arith)

  lowest :
      (x y : ℕ)
      → bitwise z g (suc x) y ≡ bitwise z g (suc x / 2) (y / 2) * 2 + g (suc x % 2) (y % 2)
  lowest x y =
      let all = more (x - suc x / 2) x (suc x / 2) (y / 2) (omega arith) in omega (arith, all)

-- The lowest digit of each operation, and the rest.
pub bit_and_low : (x y : ℕ) → bit_and x y ≡ bit_and (x / 2) (y / 2) * 2 + min (x % 2) (y % 2)
bit_and_low (suc x) y = simp bit_and-bitwise (lowest (λ k. 0) min x y)
bit_and_low zero y = simp bit_and-bitwise (omega arith)

pub bit_or_low : (x y : ℕ) → bit_or x y ≡ bit_or (x / 2) (y / 2) * 2 + max (x % 2) (y % 2)
bit_or_low (suc x) y = simp bit_or-bitwise (lowest (λ k. k) max x y)
bit_or_low zero y = simp bit_or-bitwise (omega arith)

differ-mod : (x y : ℕ) → x < 2 → y < 2 → differ x y ≡ (x + y) % 2
differ-mod zero y p q = omega arith
differ-mod (suc zero) zero p q = refl
differ-mod (suc zero) (suc zero) p q = refl
differ-mod (suc zero) (suc (suc y)) p q = absurd (omega arith)
differ-mod (suc (suc x)) y p q = absurd (omega arith)

bit_xor_low_suc :
    (a b : ℕ)
    → bitwise (λ y. y) differ (suc a) b
      ≡ bitwise (λ y. y) differ (suc a / 2) (b / 2) * 2 + (suc a + b) % 2
bit_xor_low_suc a b =
    omega (
      arith,
      lowest (λ y. y) differ a b,
      differ-mod (suc a % 2) (b % 2) (omega arith) (omega arith),
    )

pub bit_xor_low : (a b : ℕ) → bit_xor a b ≡ bit_xor (a / 2) (b / 2) * 2 + (a + b) % 2
bit_xor_low zero b = simp bit_xor-bitwise (omega arith)
bit_xor_low (suc a) b = simp bit_xor-bitwise (bit_xor_low_suc a b)

-- Each law goes from the halves to the whole; `n` bounds the arguments.
bit_xor_cancel_below : (n a b : ℕ) → a ≤ n → b ≤ n → bit_xor (bit_xor a b) b ≡ a
bit_xor_cancel_below zero zero zero p q = refl
bit_xor_cancel_below zero zero (suc b) p q = absurd (omega arith)
bit_xor_cancel_below zero (suc a) b p q = absurd (omega arith)
bit_xor_cancel_below (suc n) a b p q = ground (
  arith,
  bit_xor_low (bit_xor a b) b,
  bit_xor_low a b,
  bit_xor_cancel_below n (a / 2) (b / 2) (omega arith) (omega arith),
)

pub bit_xor_cancel : (a b : ℕ) → bit_xor (bit_xor a b) b ≡ a
bit_xor_cancel a b = bit_xor_cancel_below (a + b) a b (omega arith) (omega arith)

pub zero-bit_xor : (b : ℕ) → bit_xor 0 b ≡ b
zero-bit_xor b = bit_xor-bitwise 0 b

-- Words differ in no bit exactly when they are equal.
pub eq_of_bit_xor_zero : (a b : ℕ) → bit_xor a b ≡ 0 → a ≡ b
eq_of_bit_xor_zero a b h = sym (bit_xor_cancel a b) ∙ ap (λ t. bit_xor t b) h ∙ zero-bit_xor b

bit_xor_self_below : (n a : ℕ) → a ≤ n → bit_xor a a ≡ 0
bit_xor_self_below n zero p = refl
bit_xor_self_below zero (suc a) p = absurd (omega arith)
bit_xor_self_below (suc n) (suc a) p =
    omega (arith, bit_xor_low (suc a) (suc a), bit_xor_self_below n (suc a / 2) (omega arith))

pub bit_xor_self : (a : ℕ) → bit_xor a a ≡ 0
bit_xor_self a = bit_xor_self_below a a (le_refl a)

pub bit_xor-lt : (k a b : ℕ) → a < 2 ^ k → b < 2 ^ k → bit_xor a b < 2 ^ k
bit_xor-lt zero a b p q = ground (arith, zero-bit_xor b)
bit_xor-lt (suc k) a b p q = omega (
  arith,
  bit_xor_low a b,
  pow-suc 2 k,
  bit_xor-lt k (a / 2) (b / 2) (omega (arith, pow-suc 2 k)) (omega (arith, pow-suc 2 k)),
)

pub bit_or_eq_zero : (n a b : ℕ) → a ≤ n → b ≤ n → bit_or a b ≡ 0 → (a ≡ 0) × (b ≡ 0)
bit_or_eq_zero zero a b p q h = (omega arith, omega arith)
bit_or_eq_zero (suc n) a b p q h = omega (
  arith,
  bit_or_low a b,
  bit_or_eq_zero n (a / 2) (b / 2) (omega arith) (omega arith) (omega (arith, bit_or_low a b)),
)

bit_or-zero_below : (n a : ℕ) → a ≤ n → bit_or a 0 ≡ a
bit_or-zero_below n zero p = refl
bit_or-zero_below zero (suc a) p = absurd (omega arith)
bit_or-zero_below (suc n) (suc a) p =
    omega (arith, bit_or_low (suc a) 0, bit_or-zero_below n (suc a / 2) (omega arith))

bit_and-zero_below : (n a : ℕ) → a ≤ n → bit_and a 0 ≡ 0
bit_and-zero_below n zero p = refl
bit_and-zero_below zero (suc a) p = absurd (omega arith)
bit_and-zero_below (suc n) (suc a) p =
    omega (arith, bit_and_low (suc a) 0, bit_and-zero_below n (suc a / 2) (omega arith))

pub bit_or-zero : (a : ℕ) → bit_or a 0 ≡ a
bit_or-zero a = bit_or-zero_below a a (le_refl a)

pub bit_and-zero : (a : ℕ) → bit_and a 0 ≡ 0
bit_and-zero a = bit_and-zero_below a a (le_refl a)

pub mul-pow-suc : (q k : ℕ) → q * 2 ^ suc k ≡ 2 * (q * 2 ^ k)
mul-pow-suc q k = omega (arith, ap (λ (t : ℕ). q * t) (pow-suc 2 k))

-- `(q << k) | r` is a sum when `r` fits `k` bits.
pub bit_or_sum : (k q r : ℕ) → r < 2 ^ k → bit_or (q * 2 ^ k) r ≡ q * 2 ^ k + r
bit_or_sum zero q r fits = ground (arith, bit_or-zero q)
bit_or_sum (suc k) q r fits = ground (
  arith,
  bit_or_low (q * 2 ^ suc k) r,
  mul-pow-suc q k,
  bit_or_sum k q (r / 2) (omega (arith, pow-suc 2 k)),
)

and_mask_split : (k q r : ℕ) → r < 2 ^ k → bit_and (q * 2 ^ k + r) (2 ^ k - 1) ≡ r
and_mask_split zero q r fits = rw bit_and-zero (omega arith)
and_mask_split (suc k) q r fits = ground (
  arith,
  bit_and_low (q * 2 ^ suc k + r) (2 ^ suc k - 1),
  mul-pow-suc q k,
  pow-suc 2 k,
  one-le-pow k 2,
  and_mask_split k q (r / 2) (omega (arith, pow-suc 2 k)),
)

-- A mask of `k` low bits is the remainder by `2 ^ k`.
pub bit_and_mask : (k a : ℕ) → bit_and a (2 ^ k - 1) ≡ a % 2 ^ k
bit_and_mask k a = ground (arith, one-le-pow k 2, and_mask_split k (a / 2 ^ k) (a % 2 ^ k))

bit_xor_comm_below : (n a b : ℕ) → a ≤ n → b ≤ n → bit_xor a b ≡ bit_xor b a
bit_xor_comm_below zero a b p q =
    let e : a ≡ b = omega arith in ap (λ t. bit_xor t b) e ∙ sym (ap (λ t. bit_xor b t) e)
bit_xor_comm_below (suc n) a b p q = omega (
  arith,
  bit_xor_low a b,
  bit_xor_low b a,
  bit_xor_comm_below n (a / 2) (b / 2) (omega arith) (omega arith),
)

pub bit_xor_comm : (a b : ℕ) → bit_xor a b ≡ bit_xor b a
bit_xor_comm a b = bit_xor_comm_below (a + b) a b (omega arith) (omega arith)

-- `a ^ (a ^ b)` is `b`.
pub bit_xor_cancel_left : (a b : ℕ) → bit_xor a (bit_xor a b) ≡ b
bit_xor_cancel_left a b =
    bit_xor_comm a (bit_xor a b) ∙ ap (λ t. bit_xor t a) (bit_xor_comm a b) ∙ bit_xor_cancel b a

bit_or_comm_below : (n a b : ℕ) → a ≤ n → b ≤ n → bit_or a b ≡ bit_or b a
bit_or_comm_below zero a b p q =
    let e : a ≡ b = omega arith in ap (λ t. bit_or t b) e ∙ sym (ap (λ t. bit_or b t) e)
bit_or_comm_below (suc n) a b p q = omega (
  arith,
  bit_or_low a b,
  bit_or_low b a,
  bit_or_comm_below n (a / 2) (b / 2) (omega arith) (omega arith),
)

pub bit_or_comm : (a b : ℕ) → bit_or a b ≡ bit_or b a
bit_or_comm a b = bit_or_comm_below (a + b) a b (omega arith) (omega arith)

bit_and-le_below : (n a b : ℕ) → a ≤ n → b ≤ n → bit_and a b ≤ b
bit_and-le_below zero a zero p q = omega (arith, bit_and-zero a)
bit_and-le_below zero a (suc b) p q = absurd (omega arith)
bit_and-le_below (suc n) a b p q =
    ground (arith, bit_and_low a b, bit_and-le_below n (a / 2) (b / 2) (omega arith) (omega arith))

pub bit_and-le : (a b : ℕ) → bit_and a b ≤ b
bit_and-le a b = bit_and-le_below (a + b) a b (omega arith) (omega arith)

bit_and_comm_below : (n a b : ℕ) → a ≤ n → b ≤ n → bit_and a b ≡ bit_and b a
bit_and_comm_below zero a b p q =
    let e : a ≡ b = omega arith in ap (λ t. bit_and t b) e ∙ sym (ap (λ t. bit_and b t) e)
bit_and_comm_below (suc n) a b p q = omega (
  arith,
  bit_and_low a b,
  bit_and_low b a,
  bit_and_comm_below n (a / 2) (b / 2) (omega arith) (omega arith),
)

pub bit_and_comm : (a b : ℕ) → bit_and a b ≡ bit_and b a
bit_and_comm a b = bit_and_comm_below (a + b) a b (omega arith) (omega arith)
