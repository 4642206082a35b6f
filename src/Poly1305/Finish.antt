-- ===== src/Poly1305/Finish.antt =====
-- The end of src/poly1305.rs: the accumulator's residue, and the pad.
use mcu_crypto_asm.Base.{
  ℕ, ◌+◌, ◌-◌, ◌*◌, ◌/◌, ◌%◌, ◌^◌, ◌<◌, ◌≤◌, ◌≡◌, inl, inr, refl, ap, ap₂, sym, ◌∙◌, List, [], ◌∷◌,
  ◌++◌, get_or, arith, Bool-cases, ltb, Cong, Cong-add_mul,
}
use mcu_crypto_asm.Base.{
  bit_and, bit_or, bit_and_mask, bit_and-zero, bit_or-zero, bit_or_comm, bit_or_sum, and-ones32,
  u32, ones32, wrapping_sub32,
}
use native.Mathlib.Nat.{mod-eq_of_lt}
use mcu_crypto_asm.Poly1305.{Five, full_carry, select_reduced, add_pad, to_le32}
use mcu_crypto_asm.Poly1305.Multiply.{number, IsReduced}

-- Limbs of 26 bits.
pub record IsCanonical (h : Five) : Type 0 where
  pub b0 : h.x0 < 2 ^ 26
  pub b1 : h.x1 < 2 ^ 26
  pub b2 : h.x2 < 2 ^ 26
  pub b3 : h.x3 < 2 ^ 26
  pub b4 : h.x4 < 2 ^ 26

low_bits : (x : ℕ) → bit_and x 0x3ffffff ≡ x % 2 ^ 26
low_bits x = bit_and_mask 26 x

carried_limbs : Five → Five
carried_limbs h =
    let h2 = h.x2 + h.x1 / 2 ^ 26 in
    let h3 = h.x3 + h2 / 2 ^ 26 in
    let h4 = h.x4 + h3 / 2 ^ 26 in
    let h0 = h.x0 + h4 / 2 ^ 26 * 5 in
    record {
      x0 = h0 % 2 ^ 26;
      x1 = h.x1 % 2 ^ 26 + h0 / 2 ^ 26;
      x2 = h2 % 2 ^ 26;
      x3 = h3 % 2 ^ 26;
      x4 = h4 % 2 ^ 26;
    }

full_carry-carried : (h : Five) → IsReduced h → full_carry h ≡ carried_limbs h
unfolding full_carry carried_limbs
full_carry-carried h b =
    let h2 = h.x2 + h.x1 / 2 ^ 26 in
    let h3 = h.x3 + h2 / 2 ^ 26 in
    let h4 = h.x4 + h3 / 2 ^ 26 in
    let h0 = h.x0 + h4 / 2 ^ 26 * 5 in
    let a2 : u32 h2 ≡ h2 = omega (arith, b.b1, b.b2) in
    let a3 : u32 h3 ≡ h3 = omega (arith, b.b1, b.b2, b.b3) in
    let a4 : u32 h4 ≡ h4 = omega (arith, b.b1, b.b2, b.b3, b.b4) in
    let a0 : u32 (h.x0 + u32 (h4 / 2 ^ 26 * 5)) ≡ h0 =
      omega (arith, b.b0, b.b1, b.b2, b.b3, b.b4) in
    let a1 : u32 (h.x1 % 2 ^ 26 + h0 / 2 ^ 26) ≡ h.x1 % 2 ^ 26 + h0 / 2 ^ 26 =
      omega (arith, b.b0, b.b1, b.b2, b.b3, b.b4) in
    rw (a2, a3, a4, a0, low_bits h.x1, a1, low_bits h0, low_bits h2, low_bits h3, low_bits h4) refl

carried_limbs-number :
    (h : Five)
    → IsReduced h
    → IsCanonical (carried_limbs h)
      × (number (carried_limbs h)
            + (h.x4 + (h.x3 + (h.x2 + h.x1 / 2 ^ 26) / 2 ^ 26) / 2 ^ 26) / 2 ^ 26 * (2 ^ 130 - 5)
          ≡ number h)
unfolding carried_limbs
carried_limbs-number h b = (
  record {
    b0 = omega arith;
    b1 = omega (arith, b.b0, b.b1, b.b2, b.b3, b.b4);
    b2 = omega arith;
    b3 = omega arith;
    b4 = omega arith;
  },
  omega arith,
)

pub full_carry-number :
    (h : Five)
    → IsReduced h
    → IsCanonical (full_carry h) × Cong (2 ^ 130 - 5) (number (full_carry h)) (number h)
full_carry-number h b =
    let (ok, sum) = carried_limbs-number h b in
    rw (full_carry-carried h b) (
      ok,
      sym (
            Cong-add_mul (2 ^ 130 - 5) (number (carried_limbs h))
              ((h.x4 + (h.x3 + (h.x2 + h.x1 / 2 ^ 26) / 2 ^ 26) / 2 ^ 26) / 2 ^ 26))
          ∙ ap (λ t. t % (2 ^ 130 - 5)) sum,
    )

-- `(h & !mask) | (g & mask)`
select : ℕ → ℕ → ℕ → ℕ
select h g mask = bit_or (bit_and h (ones32 - mask)) (bit_and g mask)

select-old : (h g : ℕ) → h < 2 ^ 32 → bit_or (bit_and h (ones32 - 0)) (bit_and g 0) ≡ h
select-old h g b =
    ap (bit_or (bit_and h ones32)) (bit_and-zero g)
    ∙ bit_or-zero (bit_and h ones32)
    ∙ and-ones32 h b

select-new : (h g : ℕ) → g < 2 ^ 32 → bit_or (bit_and h (ones32 - ones32)) (bit_and g ones32) ≡ g
select-new h g b = ap₂ bit_or (bit_and-zero h) (and-ones32 g b) ∙ bit_or_comm 0 g ∙ bit_or-zero g

pub select_reduced-number :
    (h : Five)
    → IsCanonical h
    → IsCanonical (select_reduced h) × (number (select_reduced h) ≡ number h % (2 ^ 130 - 5))
unfolding select_reduced
select_reduced-number h b =
    let e0 = h.x0 + 5 in
    let e1 = h.x1 + e0 / 2 ^ 26 in
    let e2 = h.x2 + e1 / 2 ^ 26 in
    let e3 = h.x3 + e2 / 2 ^ 26 in
    let e4 = h.x4 + e3 / 2 ^ 26 in
    let a0 : u32 e0 ≡ e0 = omega (arith, b.b0) in
    let a1 : u32 e1 ≡ e1 = omega (arith, b.b0, b.b1) in
    let a2 : u32 e2 ≡ e2 = omega (arith, b.b0, b.b1, b.b2) in
    let a3 : u32 e3 ≡ e3 = omega (arith, b.b0, b.b1, b.b2, b.b3) in
    let a4 : u32 e4 ≡ e4 = omega (arith, b.b0, b.b1, b.b2, b.b3, b.b4) in
    elim (Bool-cases (ltb e4 (2 ^ 26))) [
      | inl below ↦
          let mask : wrapping_sub32 (wrapping_sub32 e4 (2 ^ 26) / 2 ^ 31) 1 ≡ 0 =
            ground (arith, below) in
          let small : e4 < 2 ^ 26 = ground (arith, below) in
          rw
            (
              a0,
              a1,
              a2,
              a3,
              a4,
              mask,
              select-old h.x0 (bit_and e0 0x3ffffff) (omega (arith, b.b0)),
              select-old h.x1 (bit_and e1 0x3ffffff) (omega (arith, b.b1)),
              select-old h.x2 (bit_and e2 0x3ffffff) (omega (arith, b.b2)),
              select-old h.x3 (bit_and e3 0x3ffffff) (omega (arith, b.b3)),
              select-old h.x4 (wrapping_sub32 e4 (2 ^ 26)) (omega (arith, b.b4)),
            )
            (
              b,
              sym (
                  mod-eq_of_lt {n = number h} {m = 2 ^ 130 - 5}
                    (omega (arith, small, b.b0, b.b1, b.b2, b.b3, b.b4))),
            )
      | inr above ↦
          let mask : wrapping_sub32 (wrapping_sub32 e4 (2 ^ 26) / 2 ^ 31) 1 ≡ ones32 =
            ground (arith, above) in
          let big : 2 ^ 26 ≤ e4 = ground (arith, above) in
          let top : wrapping_sub32 e4 (2 ^ 26) ≡ e4 - 2 ^ 26 =
            omega (arith, big, b.b0, b.b1, b.b2, b.b3, b.b4) in
          rw
            (
              a0,
              a1,
              a2,
              a3,
              a4,
              mask,
              top,
              low_bits e0,
              low_bits e1,
              low_bits e2,
              low_bits e3,
              select-new h.x0 (e0 % 2 ^ 26) (omega arith),
              select-new h.x1 (e1 % 2 ^ 26) (omega arith),
              select-new h.x2 (e2 % 2 ^ 26) (omega arith),
              select-new h.x3 (e3 % 2 ^ 26) (omega arith),
              select-new h.x4 (e4 - 2 ^ 26) (omega (arith, b.b0, b.b1, b.b2, b.b3, b.b4)),
            )
            (
              record {
                b0 = omega arith;
                b1 = omega arith;
                b2 = omega arith;
                b3 = omega arith;
                b4 = omega (arith, big, b.b0, b.b1, b.b2, b.b3, b.b4);
              },
              omega (arith, big, b.b0, b.b1, b.b2, b.b3, b.b4),
            )
    ]

-- Little-endian bytes.
abbrev pub le_number : List ℕ → ℕ
le_number [] = 0
le_number (x ∷ b) = x + 2 ^ 8 * le_number b

-- Two limbs of a word.
join : (k q r : ℕ) → r < 2 ^ k → bit_or r (q * 2 ^ k) ≡ r + q * 2 ^ k
join k q r h = bit_or_comm r (q * 2 ^ k) ∙ bit_or_sum k q r h ∙ omega arith

bytes_of :
    (x : ℕ) (rest : ℕ)
    → x < 2 ^ 32
    → x % 2 ^ 8
        + 2 ^ 8
          * (x / 2 ^ 8 % 2 ^ 8
              + 2 ^ 8 * (x / 2 ^ 16 % 2 ^ 8 + 2 ^ 8 * (x / 2 ^ 24 % 2 ^ 8 + 2 ^ 8 * rest)))
      ≡ x + 2 ^ 32 * rest
bytes_of x rest h = omega arith

le_number-words :
    (a b c d : ℕ)
    → a < 2 ^ 32
    → b < 2 ^ 32
    → c < 2 ^ 32
    → d < 2 ^ 32
    → le_number (to_le32 a ++ to_le32 b ++ to_le32 c ++ to_le32 d)
      ≡ a + 2 ^ 32 * b + 2 ^ 64 * c + 2 ^ 96 * d
unfolding to_le32
le_number-words a b c d ha hb hc hd = omega (
  arith,
  bytes_of a (b + 2 ^ 32 * c + 2 ^ 64 * d) ha,
  bytes_of b (c + 2 ^ 32 * d) hb,
  bytes_of c d hc,
  bytes_of d 0 hd,
)

-- The four sums, with their carries.
sums :
    (w0 w1 w2 w3 p0 p1 p2 p3 : ℕ)
    → (let f0 = w0 + p0 in
        let f1 = w1 + p1 + f0 / 2 ^ 32 in
        let f2 = w2 + p2 + f1 / 2 ^ 32 in
        let f3 = w3 + p3 + f2 / 2 ^ 32 in
        u32 f0 + 2 ^ 32 * u32 f1 + 2 ^ 64 * u32 f2 + 2 ^ 96 * u32 f3
        ≡ (w0
            + 2 ^ 32 * w1
            + 2 ^ 64 * w2
            + 2 ^ 96 * w3
            + (p0 + 2 ^ 32 * p1 + 2 ^ 64 * p2 + 2 ^ 96 * p3))
          % 2 ^ 128)
sums w0 w1 w2 w3 p0 p1 p2 p3 = omega arith

-- The number of the pad's words.
unfoldable pub pad_number : List ℕ → ℕ
pad_number pad =
    get_or pad 0 0 + 2 ^ 32 * get_or pad 1 0 + 2 ^ 64 * get_or pad 2 0 + 2 ^ 96 * get_or pad 3 0

pub add_pad-number :
    (h : Five) (pad : List ℕ)
    → IsCanonical h
    → le_number (add_pad h pad) ≡ (number h + pad_number pad) % 2 ^ 128
unfolding add_pad pad_number
add_pad-number h pad b =
    let w0 = h.x0 + h.x1 % 2 ^ 6 * 2 ^ 26 in
    let w1 = h.x1 / 2 ^ 6 + h.x2 % 2 ^ 12 * 2 ^ 20 in
    let w2 = h.x2 / 2 ^ 12 + h.x3 % 2 ^ 18 * 2 ^ 14 in
    let w3 = h.x3 / 2 ^ 18 + h.x4 % 2 ^ 24 * 2 ^ 8 in
    let e0 : bit_or h.x0 (u32 (h.x1 * 2 ^ 26)) ≡ w0 =
      ap (bit_or h.x0) (omega arith) ∙ join 26 (h.x1 % 2 ^ 6) h.x0 b.b0 in
    let e1 : bit_or (h.x1 / 2 ^ 6) (u32 (h.x2 * 2 ^ 20)) ≡ w1 =
      ap (bit_or (h.x1 / 2 ^ 6)) (omega arith)
      ∙ join 20 (h.x2 % 2 ^ 12) (h.x1 / 2 ^ 6) (omega (arith, b.b1)) in
    let e2 : bit_or (h.x2 / 2 ^ 12) (u32 (h.x3 * 2 ^ 14)) ≡ w2 =
      ap (bit_or (h.x2 / 2 ^ 12)) (omega arith)
      ∙ join 14 (h.x3 % 2 ^ 18) (h.x2 / 2 ^ 12) (omega (arith, b.b2)) in
    let e3 : bit_or (h.x3 / 2 ^ 18) (u32 (h.x4 * 2 ^ 8)) ≡ w3 =
      ap (bit_or (h.x3 / 2 ^ 18)) (omega arith)
      ∙ join 8 (h.x4 % 2 ^ 24) (h.x3 / 2 ^ 18) (omega (arith, b.b3)) in
    let whole : number h
        ≡ w0 + 2 ^ 32 * w1 + 2 ^ 64 * w2 + 2 ^ 96 * w3 + 2 ^ 128 * (h.x4 / 2 ^ 24) =
      omega arith in
    let p0 = get_or pad 0 0 in
    let p1 = get_or pad 1 0 in
    let p2 = get_or pad 2 0 in
    let p3 = get_or pad 3 0 in
    let f0 = w0 + p0 in
    let f1 = w1 + p1 + f0 / 2 ^ 32 in
    let f2 = w2 + p2 + f1 / 2 ^ 32 in
    let f3 = w3 + p3 + f2 / 2 ^ 32 in
    rw (e0, e1, e2, e3)
      (le_number-words (u32 f0) (u32 f1) (u32 f2) (u32 f3) (omega arith) (omega arith) (omega arith)
          (omega arith)
        ∙ sums w0 w1 w2 w3 p0 p1 p2 p3
        ∙ omega (arith, whole))
