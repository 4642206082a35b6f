-- ===== src/Bytes.antt =====
-- Bytes and words: `u32::from_be_bytes` and its kin, and arrays of limbs as big-endian bytes.
use Prim.Native.Nat.{ℕ, zero, suc, ◌+◌, ◌*◌, ◌/◌, ◌%◌, ◌^◌, ◌<◌}
use mathlib.Core.Path.{◌≡◌, refl, ap, ap₂, sym, ◌∙◌, subst}
use mathlib.Core.List.{List, [], ◌∷◌, ◌++◌, reverse, reverse-append}
use native.Mathlib.Omega.{arith}
use mcu_crypto_asm.Base.{length, All, length-append, replicate, take, drop}
use mcu_crypto_asm.Bignum.Value.{value}

abbrev pub IsBytes : List ℕ → Type 0
IsBytes = All (λ b. b < 2 ^ 8)

pub from_be32 : ℕ → ℕ → ℕ → ℕ → ℕ
from_be32 a b c d = a * 2 ^ 24 + b * 2 ^ 16 + c * 2 ^ 8 + d

unfoldable pub to_be32 : ℕ → List ℕ
to_be32 x = x / 2 ^ 24 % 2 ^ 8 ∷ x / 2 ^ 16 % 2 ^ 8 ∷ x / 2 ^ 8 % 2 ^ 8 ∷ x % 2 ^ 8 ∷ []

-- `bytes.rchunks(4)`, each chunk as a word: the argument is the bytes from the last one on.
pub rchunks : List ℕ → List ℕ
rchunks (d ∷ c ∷ b ∷ a ∷ rest) = from_be32 a b c d ∷ rchunks rest
rchunks _ = []

pub be_limbs : List ℕ → List ℕ
be_limbs bytes = rchunks (reverse bytes)

-- `out.rchunks_mut(4)`, each chunk written from a limb.
pub limbs_to_be : List ℕ → List ℕ
limbs_to_be [] = []
limbs_to_be (x ∷ a) = limbs_to_be a ++ to_be32 x

-- A word that is written is read back.
word_round_trip :
    (x : ℕ)
    → x < 2 ^ 32
    → from_be32 (x / 2 ^ 24 % 2 ^ 8) (x / 2 ^ 16 % 2 ^ 8) (x / 2 ^ 8 % 2 ^ 8) (x % 2 ^ 8) ≡ x
unfolding from_be32
word_round_trip x h = omega arith

pub be_limbs-limbs_to_be : (a : List ℕ) → All (λ x. x < 2 ^ 32) a → be_limbs (limbs_to_be a) ≡ a
unfolding be_limbs limbs_to_be to_be32 rchunks
be_limbs-limbs_to_be [] h = refl
be_limbs-limbs_to_be (x ∷ a) (hx, h) =
    ap rchunks (reverse-append (limbs_to_be a) _)
    ∙ ap₂ ◌∷◌ (word_round_trip x hx) (be_limbs-limbs_to_be a h)

pub length-limbs_to_be : (a : List ℕ) → length (limbs_to_be a) ≡ 4 * length a
unfolding limbs_to_be to_be32
length-limbs_to_be [] = refl
length-limbs_to_be (x ∷ a) =
    omega (arith, length-append {0} (limbs_to_be a) (to_be32 x), length-limbs_to_be a)

-- The number of a byte string, the last byte the lowest.
abbrev pub le_number : List ℕ → ℕ
le_number [] = 0
le_number (b ∷ r) = b + 2 ^ 8 * le_number r

abbrev pub be_number : List ℕ → ℕ
be_number bytes = le_number (reverse bytes)

rchunks_lem :
    (n : ℕ) (r : List ℕ)
    → length r ≡ 4 * n
    → IsBytes r
    → (length (rchunks r) ≡ n)
      × All (λ x. x < 2 ^ 32) (rchunks r)
      × (value (rchunks r) ≡ le_number r)
unfolding rchunks from_be32
rchunks_lem zero [] e h = (refl, tt, refl)
rchunks_lem (suc n) [] e h = absurd (omega arith)
rchunks_lem zero (d ∷ r) e h = absurd (omega arith)
rchunks_lem (suc n) (d ∷ []) e h = absurd (omega arith)
rchunks_lem (suc n) (d ∷ c ∷ []) e h = absurd (omega arith)
rchunks_lem (suc n) (d ∷ c ∷ b ∷ []) e h = absurd (omega arith)
rchunks_lem (suc n) (d ∷ c ∷ b ∷ a ∷ r) e (hd, (hc, (hb, (ha, h)))) =
    let (m, l, v) = rchunks_lem n r (omega arith) h in
    (ap suc m, (omega arith, l), omega (arith, v))

-- The limbs read from `4 * n` bytes are `n` words below `2 ^ 32` with the big-endian number of
-- the bytes as their value.
pub be_limbs_lem :
    (n : ℕ) (bytes : List ℕ)
    → length bytes ≡ 4 * n
    → IsBytes bytes
    → (length (be_limbs bytes) ≡ n)
      × All (λ x. x < 2 ^ 32) (be_limbs bytes)
      × (value (be_limbs bytes) ≡ be_number bytes)
unfolding be_limbs
be_limbs_lem n bytes e h =
    rchunks_lem n (reverse bytes) (length-reverse bytes ∙ e) (All-reverse bytes h)
  where
    snoc_length : (xs : List ℕ) (x : ℕ) → length (xs ++ (x ∷ [])) ≡ suc (length xs)
    snoc_length [] x = refl
    snoc_length (y ∷ xs) x = ap suc (snoc_length xs x)

    length-reverse : (xs : List ℕ) → length (reverse xs) ≡ length xs
    length-reverse [] = refl
    length-reverse (x ∷ xs) =
        ap length (reverse-append (x ∷ []) xs)
        ∙ snoc_length (reverse xs) x
        ∙ ap suc (length-reverse xs)

    All-snoc : (xs : List ℕ) (x : ℕ) → IsBytes xs → x < 2 ^ 8 → IsBytes (xs ++ (x ∷ []))
    All-snoc [] x h k = (k, tt)
    All-snoc (y ∷ xs) x (hy, h) k = (hy, All-snoc xs x h k)

    All-reverse : (xs : List ℕ) → IsBytes xs → IsBytes (reverse xs)
    All-reverse [] h = tt
    All-reverse (x ∷ xs) (hx, h) =
        subst IsBytes (sym (reverse-append (x ∷ []) xs))
          (All-snoc (reverse xs) x (All-reverse xs h) hx)

le_number-snoc_zero : (xs : List ℕ) → le_number (xs ++ (0 ∷ [])) ≡ le_number xs
le_number-snoc_zero [] = refl
le_number-snoc_zero (x ∷ xs) = omega (arith, le_number-snoc_zero xs)

-- Zeros on the left do not change the number.
pub be_number-padded : (k : ℕ) (xs : List ℕ) → be_number (replicate k 0 ++ xs) ≡ be_number xs
be_number-padded zero xs = refl
be_number-padded (suc k) xs =
    ap le_number (reverse-append (0 ∷ []) (replicate k 0 ++ xs))
    ∙ le_number-snoc_zero (reverse (replicate k 0 ++ xs))
    ∙ be_number-padded k xs

pub IsBytes-append : (xs ys : List ℕ) → IsBytes xs → IsBytes ys → IsBytes (xs ++ ys)
IsBytes-append [] ys h k = k
IsBytes-append (x ∷ xs) ys (hx, h) k = (hx, IsBytes-append xs ys h k)

pub IsBytes-take : (n : ℕ) (xs : List ℕ) → IsBytes xs → IsBytes (take n xs)
IsBytes-take zero xs h = tt
IsBytes-take (suc n) [] h = tt
IsBytes-take (suc n) (x ∷ xs) (hx, h) = (hx, IsBytes-take n xs h)

pub IsBytes-drop : (n : ℕ) (xs : List ℕ) → IsBytes xs → IsBytes (drop n xs)
IsBytes-drop zero xs h = h
IsBytes-drop (suc n) [] h = tt
IsBytes-drop (suc n) (x ∷ xs) (hx, h) = IsBytes-drop n xs h

pub IsBytes-zeros : (n : ℕ) → IsBytes (replicate n 0)
IsBytes-zeros zero = tt
IsBytes-zeros (suc n) = (omega arith, IsBytes-zeros n)
