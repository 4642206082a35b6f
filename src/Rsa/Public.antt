-- ===== src/Rsa/Public.antt =====
-- The results and the errors of src/rsa.rs.
use mcu_crypto_asm.Base.{
  ℕ, zero, suc, ◌+◌, ◌*◌, ◌%◌, ◌^◌, ◌<◌, ◌≤◌, ◌≡◌, ◌≢◌, inl, inr, refl, ap, sym, ◌∙◌, List, [], ◌∷◌,
  length, arith, ltb, ◌==◌, ==_iff, Bool-cases, true, false, Bool, not, ◌||◌, clash,
}
use mathlib.Core.Path.{subst}
use native.Mathlib.Nat.{mod-eq_of_lt, pow-zero}
use mcu_crypto_asm.Bytes.{IsBytes}
use mcu_crypto_asm.Bignum.{low_limb, sub_loop, overflowing_sub_loop}
use mcu_crypto_asm.Bignum.Value.{value, radix, IsLimbs, value-lt-radix}
use mcu_crypto_asm.Bignum.Chains.{minus, overflowing_sub_loop_lem, sub_loop-eq-overflowing_sub_loop}
use mcu_crypto_asm.Bignum.Reduce.{Holds}
use mcu_crypto_asm.Rsa.{
  ModexpOutcome, ok, err, base_too_large, invalid_length, modulus_even, one_limbs, bit_at, power,
  skip_zeros, find_bit, portable_modexp_public, modexp_public,
}
use mcu_crypto_asm.Rsa.Radix.{one_limbs-value}
use mcu_crypto_asm.Rsa.Exponent.{
  be_value, prefix, digit, prefix-be_value, be_value-skip_zeros, skip_zeros-IsBytes, find_bit-first,
}
use mcu_crypto_asm.Rsa.Modexp.{IsOdd, odd_value, power-Holds}

-- The test on the borrow compares.
too_large :
    (base m : List ℕ)
    → length base ≡ length m
    → IsLimbs base
    → IsLimbs m
    → ltb (sub_loop base m 0).1 (2 ^ 63) ≡ ltb (value m) (value base + 1)
too_large base m n hb hm =
    let sub = overflowing_sub_loop_lem base m 0 n hb hm (omega arith) in
    let borrow : (sub_loop base m 0).1 ≡ minus (overflowing_sub_loop base m 0).1 =
      ap (λ r. r.1) (sub_loop-eq-overflowing_sub_loop base m 0 hb hm (omega arith)) in
    ap (λ b. ltb b (2 ^ 63)) borrow
    ∙ by_borrow {d = value (overflowing_sub_loop base m 0).0} (overflowing_sub_loop base m 0).1
        (radix (length base)) sub.0.bit
        (omega (arith, value-lt-radix _ sub.0.limbs, ap radix sub.0.size)) (omega (arith, sub.1))
        (omega (arith, value-lt-radix m hm, ap radix n))
  where
    by_borrow :
        {d : ℕ} (b r : ℕ)
        → b ≤ 1
        → d < r
        → d + value m ≡ value base + r * b
        → value m < r
        → ltb (minus b) (2 ^ 63) ≡ ltb (value m) (value base + 1)
    by_borrow zero r h k e l = ground arith
    by_borrow (suc zero) r h k e l = ground arith
    by_borrow (suc (suc b)) r h k e l = absurd (omega arith)

pub portable_modexp_public-Holds :
    (base exponent m : List ℕ)
    → IsOdd m
    → length base ≡ length m
    → IsLimbs base
    → value base < value m
    → IsBytes exponent
    → (r : List ℕ) × (portable_modexp_public base exponent m ≡ ok r)
      × Holds (length m) (value base ^ be_value exponent % value m) r
unfolding portable_modexp_public prefix digit
portable_modexp_public-Holds base exponent m h n hb small bytes =
    let test : ltb (sub_loop base m 0).1 (2 ^ 63) ≡ false =
      too_large base m n hb h.limbs ∙ ground (arith, small) in
    let e = skip_zeros exponent in
    let first = find_bit (length e * 8) e 0 in
    let (low, within, found) = find_bit-first (length e * 8) e 0 refl in
    let pos = (odd_value m h).2 in
    let same = be_value-skip_zeros exponent in
    let e_bytes = skip_zeros-IsBytes exponent bytes in
    let (one_size, one_ok, one) = one_limbs-value (length m) pos in
    elim (Bool-cases (first == length e * 8)) [
      | inl none ↦
          let zero_exponent : be_value exponent ≡ 0 =
            sym same
            ∙ sym (prefix-be_value e e_bytes)
            ∙ ap (prefix e) (sym ((==_iff first (length e * 8)).0 none))
            ∙ low in
          (
            one_limbs (length m),
            rw (test, none, portable_modexp_public) refl,
            record {
              size = one_size;
              limbs = one_ok;
              number =
                  one
                  ∙ sym (mod-eq_of_lt {n = 1} {m = value m} h.big)
                  ∙ ap (λ k. k % value m)
                      (sym (pow-zero (value base)) ∙ ap (λ k. value base ^ k) (sym zero_exponent));
            },
          )
      | inr some ↦
          let here : bit_at e first ≡ true = elim found [
            | inl b ↦ b
            | inr end ↦ absurd (clash some ((==_iff first (length e * 8)).1 (end ∙ omega arith)))
          ] in
          let top : prefix e (first + 1) ≡ 1 =
            let next : first + 1 ≡ suc first = omega arith in
            ap (prefix e) next ∙ omega (arith, low, ap digit here) in
          (
            power base e first m,
            rw (test, some, portable_modexp_public) refl,
            subst (λ k. Holds (length m) (value base ^ k % value m) (power base e first m)) same
                (power-Holds m h base n hb small e first e_bytes (less some within) top),
          )
    ]
  where
    less : {a b : ℕ} → (a == b) ≡ false → a ≤ 0 + b → a < b
    less some within = ground (arith, some, within)

-- The sizes that the code takes.
pub record IsRsaSize (m : List ℕ) : Type 0 where
  pub some : 0 < length m
  pub whole : length m * 4 % 32 ≡ 0
  pub within : length m ≤ 128

-- What the answers mean.
pub data IsAnswer (base exponent m : List ℕ) : ModexpOutcome → Type 0 where
  refused_length : (IsRsaSize m → ⊥) → IsAnswer base exponent m (err invalid_length)
  refused_even : IsRsaSize m → low_limb m % 2 ≡ 0 → IsAnswer base exponent m (err modulus_even)
  refused_base :
      IsRsaSize m
      → low_limb m % 2 ≡ 1
      → value m ≤ value base
      → IsAnswer base exponent m (err base_too_large)
  answered :
      IsRsaSize m
      → low_limb m % 2 ≡ 1
      → value base < value m
      → (r : List ℕ) → Holds (length m) (value base ^ be_value exponent % value m) r
      → IsAnswer base exponent m (ok r)

module _ (base exponent m : List ℕ) (n : length base ≡ length m) (hb : IsLimbs base)
    (hm : IsLimbs m) where
  portable-IsAnswer :
      value m ≢ 1
      → IsBytes exponent
      → IsRsaSize m
      → low_limb m % 2 ≡ 1
      → IsAnswer base exponent m (portable_modexp_public base exponent m)
  unfolding portable_modexp_public
  portable-IsAnswer not_one bytes size odd = elim (Bool-cases (ltb (value m) (value base + 1))) [
    | inl large ↦
        rw (too_large base m n hb hm ∙ large, portable_modexp_public)
          (refused_base size odd (ground (arith, large)))
    | inr small ↦
        let below : value base < value m = ground (arith, small) in
        let (r, e, out) =
          portable_modexp_public-Holds base exponent m
            (record { limbs = hm; odd = odd; big = big m odd not_one }) n hb below bytes in
        rw e (answered size odd below r out)
  ]
    where
      big : (m : List ℕ) → low_limb m % 2 ≡ 1 → value m ≢ 1 → 1 < value m
      big [] odd not_one = absurd (omega arith)
      big (x ∷ m) odd not_one = omega (arith, not_one)

  -- For a base and a modulus of as many limbs, a modulus other than one and an exponent of bytes,
  -- `modexp_public` answers an invalid length exactly for a size that it does not take, then an
  -- even modulus, then a base not below the modulus, and otherwise `base ^ exponent` modulo the
  -- modulus, in as many limbs.
  pub modexp_public-IsAnswer :
      value m ≢ 1 → IsBytes exponent → IsAnswer base exponent m (modexp_public base exponent m)
  unfolding modexp_public
  modexp_public-IsAnswer not_one bytes = elim (Bool-cases refused) [
    | inl wrong ↦ rw (wrong, modexp_public) (refused_length (not_size wrong))
    | inr right ↦
        let size = is_size right in
        elim (Bool-cases (low_limb m % 2 == 0)) [
          | inl even ↦
              rw (right, even, modexp_public)
                (refused_even size ((==_iff (low_limb m % 2) 0).0 even))
          | inr odd ↦
              rw (right, odd, modexp_public)
                (portable-IsAnswer not_one bytes size (ground (arith, odd)))
        ]
  ]
    where
      refused : Bool
      refused = (length m * 4 == 0) || (not (length m * 4 % 32 == 0) || ltb 128 (length m))

      is_size : refused ≡ false → IsRsaSize m
      is_size right = record {
        some = ground (arith, right);
        whole = ground (arith, right);
        within = ground (arith, right);
      }

      not_size : refused ≡ true → IsRsaSize m → ⊥
      not_size wrong size = ground (arith, wrong, size.some, size.whole, size.within)
