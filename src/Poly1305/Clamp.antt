-- ===== src/Poly1305/Clamp.antt =====
-- The key that `new` of src/poly1305.rs keeps: RFC 8439's clamping of the first sixteen octets, and
-- the pad of the last sixteen.
use mcu_crypto_asm.Base.{
  ℕ, ◌+◌, ◌*◌, ◌/◌, ◌%◌, ◌^◌, ◌<◌, ◌≡◌, ap, ◌∙◌, arith, List, [], ◌∷◌, get_or, bit_and,
  bit_and_mask, bit_and_masks,
}
use mcu_crypto_asm.Bytes.{IsBytes}
use mcu_crypto_asm.Poly1305.{Poly1305, new}
use mcu_crypto_asm.Poly1305.Multiply.{number}
use mcu_crypto_asm.Poly1305.Block.{get_or-lt, u8to32_lem}
use mcu_crypto_asm.Poly1305.Message.{IsRunning, new-IsRunning}
use mcu_crypto_asm.Poly1305.Finish.{le_number, pad_number}

-- An octet without its four top bits, and without its two lowest ones.
abbrev pub no_top : ℕ → ℕ
no_top b = b % 2 ^ 4

abbrev pub no_bottom : ℕ → ℕ
no_bottom b = b / 2 ^ 2 * 2 ^ 2

-- The octets 3, 7, 11 and 15 have their four top bits clear, and 4, 8 and 12 their two lowest.
unfoldable pub clamped_octets : List ℕ → List ℕ
clamped_octets key =
    let at : ℕ → ℕ = λ i. get_or key i 0 in
    at 0
    ∷ at 1
    ∷ at 2
    ∷ no_top (at 3)
    ∷ no_bottom (at 4)
    ∷ at 5
    ∷ at 6
    ∷ no_top (at 7)
    ∷ no_bottom (at 8)
    ∷ at 9
    ∷ at 10
    ∷ no_top (at 11)
    ∷ no_bottom (at 12)
    ∷ at 13
    ∷ at 14
    ∷ no_top (at 15)
    ∷ []

unfoldable pub pad_octets : List ℕ → List ℕ
pad_octets key =
    let at : ℕ → ℕ = λ i. get_or key i 0 in
    at 16
    ∷ at 17
    ∷ at 18
    ∷ at 19
    ∷ at 20
    ∷ at 21
    ∷ at 22
    ∷ at 23
    ∷ at 24
    ∷ at 25
    ∷ at 26
    ∷ at 27
    ∷ at 28
    ∷ at 29
    ∷ at 30
    ∷ at 31
    ∷ []

-- A fresh state for the key.
pub record IsKeyed (key : List ℕ) (p : Poly1305) : Type 0 where
  pub running : IsRunning p
  pub empty : number p.h ≡ 0
  pub clamped : number p.r ≡ le_number (clamped_octets key)
  pub pad : pad_number p.pad ≡ le_number (pad_octets key)

-- Four octets as a word.
abbrev word : (a b c d : ℕ) → ℕ
word a b c d = a + 2 ^ 8 * b + 2 ^ 16 * c + 2 ^ 24 * d

-- The masks on words of octets: what is left of each octet.
limb0 :
    (a b c d : ℕ)
    → a < 2 ^ 8
    → b < 2 ^ 8
    → c < 2 ^ 8
    → bit_and (word a b c d) 0x3ffffff ≡ a + 2 ^ 8 * b + 2 ^ 16 * c + 2 ^ 24 * (d % 2 ^ 2)
limb0 a b c d ha hb hc = bit_and_mask 26 (word a b c d) ∙ omega arith

limb1 :
    (a b c d : ℕ)
    → a < 2 ^ 8
    → b < 2 ^ 8
    → c < 2 ^ 8
    → d < 2 ^ 8
    → bit_and (word a b c d / 2 ^ 2) 0x3ffff03
      ≡ no_top a / 2 ^ 2 + 2 ^ 6 * no_bottom b + 2 ^ 14 * c + 2 ^ 22 * (d % 2 ^ 4)
limb1 a b c d ha hb hc hd = bit_and_masks 8 18 2 (word a b c d / 2 ^ 2) (omega arith) ∙ omega arith

limb2 :
    (a b c d : ℕ)
    → a < 2 ^ 8
    → b < 2 ^ 8
    → c < 2 ^ 8
    → d < 2 ^ 8
    → bit_and (word a b c d / 2 ^ 4) 0x3ffc0ff
      ≡ a / 2 ^ 4 + 2 ^ 4 * no_top b + 2 ^ 12 * no_bottom c + 2 ^ 20 * (d % 2 ^ 6)
limb2 a b c d ha hb hc hd = bit_and_masks 14 12 8 (word a b c d / 2 ^ 4) (omega arith) ∙ omega arith

limb3 :
    (a b c d : ℕ)
    → a < 2 ^ 8
    → b < 2 ^ 8
    → c < 2 ^ 8
    → d < 2 ^ 8
    → bit_and (word a b c d / 2 ^ 6) 0x3f03fff
      ≡ a / 2 ^ 6 + 2 ^ 2 * b + 2 ^ 10 * no_top c + 2 ^ 18 * no_bottom d
limb3 a b c d ha hb hc hd = bit_and_masks 20 6 14 (word a b c d / 2 ^ 6) (omega arith) ∙ omega arith

limb4 :
    (a b c d : ℕ)
    → a < 2 ^ 8
    → b < 2 ^ 8
    → c < 2 ^ 8
    → d < 2 ^ 8
    → bit_and (word a b c d / 2 ^ 8) 0x00fffff ≡ b + 2 ^ 8 * c + 2 ^ 16 * no_top d
limb4 a b c d ha hb hc hd = bit_and_mask 20 (word a b c d / 2 ^ 8) ∙ omega arith

-- Of a key of bytes, `new` gives a state with reduced limbs, the multiples by five and the
-- accumulator zero, whose key is the number of the first sixteen bytes, clamped as RFC 8439 says:
-- without the four top bits of the bytes 3, 7, 11 and 15 and the two lowest of 4, 8 and 12; its
-- pad is the number of the bytes from 16 to 31.
pub new-IsKeyed : (key : List ℕ) → IsBytes key → IsKeyed key (new key)
unfolding new clamped_octets pad_octets pad_number
new-IsKeyed key h =
    let (running, empty) = new-IsRunning key in
    let at : ℕ → ℕ = λ i. get_or key i 0 in
    let byte : (i : ℕ) → at i < 2 ^ 8 = λ i. get_or-lt key i h in
    let r0 =
      ap (λ w. bit_and w 0x3ffffff) (u8to32_lem key 0 h)
      ∙ limb0 (at 0) (at 1) (at 2) (at 3) (byte 0) (byte 1) (byte 2) in
    let r1 =
      ap (λ w. bit_and (w / 2 ^ 2) 0x3ffff03) (u8to32_lem key 3 h)
      ∙ limb1 (at 3) (at 4) (at 5) (at 6) (byte 3) (byte 4) (byte 5) (byte 6) in
    let r2 =
      ap (λ w. bit_and (w / 2 ^ 4) 0x3ffc0ff) (u8to32_lem key 6 h)
      ∙ limb2 (at 6) (at 7) (at 8) (at 9) (byte 6) (byte 7) (byte 8) (byte 9) in
    let r3 =
      ap (λ w. bit_and (w / 2 ^ 6) 0x3f03fff) (u8to32_lem key 9 h)
      ∙ limb3 (at 9) (at 10) (at 11) (at 12) (byte 9) (byte 10) (byte 11) (byte 12) in
    let r4 =
      ap (λ w. bit_and (w / 2 ^ 8) 0x00fffff) (u8to32_lem key 12 h)
      ∙ limb4 (at 12) (at 13) (at 14) (at 15) (byte 12) (byte 13) (byte 14) (byte 15) in
    record {
      running = running;
      empty = empty;
      clamped = rw (r0, r1, r2, r3, r4) (omega arith);
      pad = omega (
        arith,
        u8to32_lem key 16 h,
        u8to32_lem key 20 h,
        u8to32_lem key 24 h,
        u8to32_lem key 28 h,
      );
    }
