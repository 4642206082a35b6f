-- ===== src/Curve25519/Packing.antt =====
-- The reduction and the bytes of `to_bytes` in src/curve25519/portable.rs.
use mcu_crypto_asm.Base.{
  ℕ, ◌+◌, ◌-◌, ◌*◌, ◌/◌, ◌%◌, ◌^◌, ◌<◌, ◌≤◌, ◌≡◌, inl, inr, refl, ap, ◌∙◌, List, [], ◌++◌, length,
  arith, Bool-cases, ◌==◌, not, ◌||◌, u64,
}
use mcu_crypto_asm.Base.{bit_and, bit_or, bit_and_mask}
use mcu_crypto_asm.Bytes.{IsBytes, le_number, IsBytes-append}
use mcu_crypto_asm.Curve25519.{Fe51, carry_pass, to_le64, reduce_words, to_bytes}
use mcu_crypto_asm.Curve25519.Limbs.{prime, number, IsLoose, residue_of}
use mcu_crypto_asm.Curve25519.Limbs.{low_bits, join}

-- A turn of the reduction without the word sizes.
passed : Fe51 → Fe51
passed t =
    let t1 = t.x1 + t.x0 / 2 ^ 51 in
    let t2 = t.x2 + t1 / 2 ^ 51 in
    let t3 = t.x3 + t2 / 2 ^ 51 in
    let t4 = t.x4 + t3 / 2 ^ 51 in
    record {
      x0 = t.x0 % 2 ^ 51 + t4 / 2 ^ 51 * 19;
      x1 = t1 % 2 ^ 51;
      x2 = t2 % 2 ^ 51;
      x3 = t3 % 2 ^ 51;
      x4 = t4 % 2 ^ 51;
    }

carry_pass-passed : (t : Fe51) → IsLoose t → carry_pass t ≡ passed t
unfolding carry_pass passed
carry_pass-passed t h =
    let t1 = t.x1 + t.x0 / 2 ^ 51 in
    let t2 = t.x2 + t1 / 2 ^ 51 in
    let t3 = t.x3 + t2 / 2 ^ 51 in
    let t4 = t.x4 + t3 / 2 ^ 51 in
    let a1 : u64 t1 ≡ t1 = omega (arith, h.b0, h.b1) in
    let a2 : u64 t2 ≡ t2 = omega (arith, h.b0, h.b1, h.b2) in
    let a3 : u64 t3 ≡ t3 = omega (arith, h.b0, h.b1, h.b2, h.b3) in
    let a4 : u64 t4 ≡ t4 = omega (arith, h.b0, h.b1, h.b2, h.b3, h.b4) in
    let a0 : u64 (t.x0 % 2 ^ 51 + u64 (t4 / 2 ^ 51 * 19)) ≡ t.x0 % 2 ^ 51 + t4 / 2 ^ 51 * 19 =
      omega (arith, h.b0, h.b1, h.b2, h.b3, h.b4) in
    rw (a1, a2, a3, a4, low_bits t.x0, a0, low_bits t1, low_bits t2, low_bits t3, low_bits t4) refl

-- After one turn only the lowest limb may be too large, and not by much.
record IsPassed (t : Fe51) : Type 0 where
  b0 : t.x0 < 2 ^ 51 + 19 * 8
  b1 : t.x1 < 2 ^ 51
  b2 : t.x2 < 2 ^ 51
  b3 : t.x3 < 2 ^ 51
  b4 : t.x4 < 2 ^ 51

record IsCanonical (t : Fe51) : Type 0 where
  b0 : t.x0 < 2 ^ 51
  b1 : t.x1 < 2 ^ 51
  b2 : t.x2 < 2 ^ 51
  b3 : t.x3 < 2 ^ 51
  b4 : t.x4 < 2 ^ 51

-- The carry out of the top limb.
overflow : Fe51 → ℕ
overflow t = (t.x4 + (t.x3 + (t.x2 + (t.x1 + t.x0 / 2 ^ 51) / 2 ^ 51) / 2 ^ 51) / 2 ^ 51) / 2 ^ 51

passed-number : (t : Fe51) → number (passed t) + overflow t * prime ≡ number t
unfolding passed overflow
passed-number t = omega arith

passed-residue : (t : Fe51) → number (passed t) % prime ≡ number t % prime
passed-residue t = residue_of (number (passed t)) (number t) (overflow t) (passed-number t)

first_pass : (t : Fe51) → IsLoose t → IsPassed (passed t)
unfolding passed
first_pass t h = record {
  b0 = omega (arith, h.b0, h.b1, h.b2, h.b3, h.b4);
  b1 = omega arith;
  b2 = omega arith;
  b3 = omega arith;
  b4 = omega arith;
}

-- If the second turn carries out of the top limb, the lowest limb has become small.
second_pass : (t : Fe51) → IsPassed t → IsCanonical (passed t)
unfolding passed
second_pass t h = record {
  b0 = omega (arith, h.b0, h.b1, h.b2, h.b3, h.b4);
  b1 = omega arith;
  b2 = omega arith;
  b3 = omega arith;
  b4 = omega arith;
}

-- The bytes of a word before others.
le_number-to_le64 :
    (x : ℕ) (rest : List ℕ)
    → x < 2 ^ 64
    → le_number (to_le64 x ++ rest) ≡ x + 2 ^ 64 * le_number rest
unfolding to_le64
le_number-to_le64 x rest h = omega arith

le_number-words :
    (a b c d : ℕ)
    → a < 2 ^ 64
    → b < 2 ^ 64
    → c < 2 ^ 64
    → d < 2 ^ 64
    → le_number (to_le64 a ++ to_le64 b ++ to_le64 c ++ to_le64 d)
      ≡ a + 2 ^ 64 * b + 2 ^ 128 * c + 2 ^ 192 * d
unfolding to_le64
le_number-words a b c d ha hb hc hd = omega (
  arith,
  le_number-to_le64 a (to_le64 b ++ (to_le64 c ++ to_le64 d)) ha,
  le_number-to_le64 b (to_le64 c ++ to_le64 d) hb,
  le_number-to_le64 c (to_le64 d) hc,
  le_number-to_le64 d [] hd,
)

-- Of a number below `2 ^ 255` the words of its residue are written.
reduce_words_lem :
    (w0 w1 w2 w3 : ℕ)
    → w0 < 2 ^ 64
    → w1 < 2 ^ 64
    → w2 < 2 ^ 64
    → w3 < 2 ^ 63
    → le_number (reduce_words w0 w1 w2 w3)
      ≡ (w0 + 2 ^ 64 * w1 + 2 ^ 128 * w2 + 2 ^ 192 * w3) % prime
unfolding reduce_words
reduce_words_lem w0 w1 w2 w3 h0 h1 h2 h3 =
    let d0 = w0 + 19 in
    let d1 = w1 + d0 / 2 ^ 64 in
    let d2 = w2 + d1 / 2 ^ 64 in
    let d3 = w3 + d2 / 2 ^ 64 in
    elim (Bool-cases (not (u64 d3 / 2 ^ 63 == 0) || not (d3 / 2 ^ 64 == 0))) [
      | inl above ↦
          let big : 2 ^ 63 ≤ d3 = ground (arith, above) in
          rw (above, bit_and_mask 63 (u64 d3))
            (le_number-words (u64 d0) (u64 d1) (u64 d2) (u64 d3 % 2 ^ 63) (omega arith)
                (omega arith) (omega arith) (omega arith)
              ∙ omega (arith, big))
      | inr below ↦
          let small : d3 < 2 ^ 63 = ground (arith, below) in
          rw below (le_number-words w0 w1 w2 w3 h0 h1 h2 (omega arith) ∙ omega (arith, small))
    ]

IsBytes-to_le64 : (x : ℕ) → IsBytes (to_le64 x)
unfolding to_le64
IsBytes-to_le64 x = (
  omega arith,
  (
    omega arith,
    (omega arith, (omega arith, (omega arith, (omega arith, (omega arith, (omega arith, tt)))))),
  ),
)

IsBytes-words :
    (a b c d : ℕ)
    → IsBytes (to_le64 a ++ to_le64 b ++ to_le64 c ++ to_le64 d)
      × (length (to_le64 a ++ to_le64 b ++ to_le64 c ++ to_le64 d) ≡ 32)
IsBytes-words a b c d = (
  IsBytes-append _ (to_le64 d)
      (IsBytes-append _ (to_le64 c)
        (IsBytes-append (to_le64 a) (to_le64 b) (IsBytes-to_le64 a) (IsBytes-to_le64 b))
        (IsBytes-to_le64 c))
      (IsBytes-to_le64 d),
  counted,
)
  where
    counted : length (to_le64 a ++ to_le64 b ++ to_le64 c ++ to_le64 d) ≡ 32
    counted = unfold to_le64 in refl

reduce_words-IsBytes :
    (w0 w1 w2 w3 : ℕ)
    → IsBytes (reduce_words w0 w1 w2 w3) × (length (reduce_words w0 w1 w2 w3) ≡ 32)
unfolding reduce_words
reduce_words-IsBytes w0 w1 w2 w3 =
    let d0 = w0 + 19 in
    let d1 = w1 + d0 / 2 ^ 64 in
    let d2 = w2 + d1 / 2 ^ 64 in
    let d3 = w3 + d2 / 2 ^ 64 in
    elim (Bool-cases (not (u64 d3 / 2 ^ 63 == 0) || not (d3 / 2 ^ 64 == 0))) [
      | inl above ↦
          rw above (IsBytes-words (u64 d0) (u64 d1) (u64 d2) (bit_and (u64 d3) (2 ^ 63 - 1)))
      | inr below ↦ rw below (IsBytes-words w0 w1 w2 w3)
    ]

-- The four words of canonical limbs, reduced.
pack_lem :
    (t : Fe51)
    → IsCanonical t
    → le_number (
        reduce_words
          (bit_or t.x0 (u64 (t.x1 * 2 ^ 51)))
          (bit_or (t.x1 / 2 ^ 13) (u64 (t.x2 * 2 ^ 38)))
          (bit_or (t.x2 / 2 ^ 26) (u64 (t.x3 * 2 ^ 25)))
          (bit_or (t.x3 / 2 ^ 39) (u64 (t.x4 * 2 ^ 12))))
      ≡ number t % prime
pack_lem t h =
    let w0 = t.x0 + t.x1 % 2 ^ 13 * 2 ^ 51 in
    let w1 = t.x1 / 2 ^ 13 + t.x2 % 2 ^ 26 * 2 ^ 38 in
    let w2 = t.x2 / 2 ^ 26 + t.x3 % 2 ^ 39 * 2 ^ 25 in
    let w3 = t.x3 / 2 ^ 39 + t.x4 * 2 ^ 12 in
    let e0 : bit_or t.x0 (u64 (t.x1 * 2 ^ 51)) ≡ w0 =
      ap (bit_or t.x0) (omega arith) ∙ join 51 (t.x1 % 2 ^ 13) t.x0 h.b0 in
    let e1 : bit_or (t.x1 / 2 ^ 13) (u64 (t.x2 * 2 ^ 38)) ≡ w1 =
      ap (bit_or (t.x1 / 2 ^ 13)) (omega arith)
      ∙ join 38 (t.x2 % 2 ^ 26) (t.x1 / 2 ^ 13) (omega (arith, h.b1)) in
    let e2 : bit_or (t.x2 / 2 ^ 26) (u64 (t.x3 * 2 ^ 25)) ≡ w2 =
      ap (bit_or (t.x2 / 2 ^ 26)) (omega arith)
      ∙ join 25 (t.x3 % 2 ^ 39) (t.x2 / 2 ^ 26) (omega (arith, h.b2)) in
    let e3 : bit_or (t.x3 / 2 ^ 39) (u64 (t.x4 * 2 ^ 12)) ≡ w3 =
      ap (bit_or (t.x3 / 2 ^ 39)) (omega (arith, h.b4))
      ∙ join 12 t.x4 (t.x3 / 2 ^ 39) (omega (arith, h.b3)) in
    rw (e0, e1, e2, e3)
      (reduce_words_lem w0 w1 w2 w3 (omega (arith, h.b0)) (omega (arith, h.b1))
          (omega (arith, h.b2)) (omega (arith, h.b3, h.b4))
        ∙ ap (λ n. n % prime) (omega (arith, h.b0, h.b1, h.b2, h.b3, h.b4)))

-- Of an element with limbs below `2 ^ 53`, `to_bytes` writes 32 bytes that spell its number
-- modulo `2 ^ 255 - 19`: two turns of carries are enough.
pub to_bytes_lem :
    (a : Fe51)
    → IsLoose a
    → IsBytes (to_bytes a)
      × (length (to_bytes a) ≡ 32)
      × (le_number (to_bytes a) ≡ number a % prime)
unfolding to_bytes
to_bytes_lem a h =
    let first = first_pass a h in
    let t = passed (passed a) in
    let same : carry_pass (carry_pass a) ≡ t =
      ap carry_pass (carry_pass-passed a h)
      ∙ carry_pass-passed (passed a) (IsPassed-IsLoose first) in
    let (bytes, count) =
      reduce_words-IsBytes (bit_or t.x0 (u64 (t.x1 * 2 ^ 51)))
        (bit_or (t.x1 / 2 ^ 13) (u64 (t.x2 * 2 ^ 38)))
        (bit_or (t.x2 / 2 ^ 26) (u64 (t.x3 * 2 ^ 25)))
        (bit_or (t.x3 / 2 ^ 39) (u64 (t.x4 * 2 ^ 12))) in
    rw same (
      bytes,
      count,
      pack_lem t (second_pass (passed a) first) ∙ passed-residue (passed a) ∙ passed-residue a,
    )
  where
    IsPassed-IsLoose : {t : Fe51} → IsPassed t → IsLoose t
    IsPassed-IsLoose h = record {
      b0 = omega (arith, h.b0);
      b1 = omega (arith, h.b1);
      b2 = omega (arith, h.b2);
      b3 = omega (arith, h.b3);
      b4 = omega (arith, h.b4);
    }
