-- ===== src/Base/Masks.antt =====
-- `&` with masks of several runs of ones, in parts.
use Prim.Native.Nat.{min, bit_and, ℕ, zero, suc, ◌+◌, ◌-◌, ◌*◌, ◌/◌, ◌%◌, ◌^◌, ◌≤◌, ◌<◌}
use mathlib.Core.Path.{◌≡◌, ap, ap₂, ◌∙◌}
use native.Mathlib.Nat.{pow-suc, one-le-pow, div-add-mod, mod-lt}
use native.Mathlib.Omega.{arith}
use mcu_crypto_asm.Base.Bits.{bit_and_low, bit_and-zero, bit_and_mask, mul-pow-suc}

halve-split :
    (k q r : ℕ) → ((q * 2 ^ suc k + r) / 2 ≡ q * 2 ^ k + r / 2) × ((q * 2 ^ suc k + r) % 2 ≡ r % 2)
halve-split k q r = let double = mul-pow-suc q k in (omega (arith, double), omega (arith, double))

-- `&` of two numbers in two parts, above and below the bit `k`.
pub bit_and_split :
    (k q r s t : ℕ)
    → r < 2 ^ k
    → t < 2 ^ k
    → bit_and (q * 2 ^ k + r) (s * 2 ^ k + t) ≡ bit_and q s * 2 ^ k + bit_and r t
bit_and_split zero q r s t hr ht =
    let nothing : r ≡ 0 = omega arith in
    let nothing' : t ≡ 0 = omega arith in
    let left : q * 2 ^ 0 + r ≡ q = omega arith in
    let right : s * 2 ^ 0 + t ≡ s = omega arith in
    ap₂ bit_and left right ∙ omega (arith, ap₂ bit_and nothing nothing', bit_and-zero 0)
bit_and_split (suc k) q r s t hr ht =
    let (ql, qb) = halve-split k q r in
    let (sl, sb) = halve-split k s t in
    bit_and_low (q * 2 ^ suc k + r) (s * 2 ^ suc k + t)
    ∙ ap₂ (λ u v. u * 2 + v)
        (ap₂ bit_and ql sl
          ∙ bit_and_split k q (r / 2) s (t / 2) (omega (arith, pow-suc 2 k))
              (omega (arith, pow-suc 2 k)))
        (ap₂ min qb sb)
    ∙ omega (arith, mul-pow-suc (bit_and q s) k, bit_and_low r t)

-- A mask of the `j` lowest bits and of `n` bits from the bit `k`.
pub bit_and_masks :
    (k n j x : ℕ)
    → 2 ^ j ≤ 2 ^ k
    → bit_and x ((2 ^ n - 1) * 2 ^ k + (2 ^ j - 1)) ≡ x / 2 ^ k % 2 ^ n * 2 ^ k + x % 2 ^ k % 2 ^ j
bit_and_masks k n j x h =
    let whole : x ≡ x / 2 ^ k * 2 ^ k + x % 2 ^ k = omega (arith, div-add-mod x (2 ^ k)) in
    let above = one-le-pow k 2 in
    let positive = one-le-pow j 2 in
    ap (λ t. bit_and t ((2 ^ n - 1) * 2 ^ k + (2 ^ j - 1))) whole
    ∙ bit_and_split k (x / 2 ^ k) (x % 2 ^ k) (2 ^ n - 1) (2 ^ j - 1) (mod-lt x (omega arith))
        (omega arith)
    ∙ ap₂ (λ u v. u * 2 ^ k + v) (bit_and_mask n (x / 2 ^ k)) (bit_and_mask j (x % 2 ^ k))
