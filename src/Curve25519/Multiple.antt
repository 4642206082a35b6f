-- ===== src/Curve25519/Multiple.antt =====
-- `scalarmult` of src/curve25519/portable.rs against the ladder on residues.
use mcu_crypto_asm.Base.{
  ℕ, zero, suc, ◌+◌, ◌-◌, ◌*◌, ◌/◌, ◌%◌, ◌^◌, ◌<◌, ◌≡◌, refl, ap, ap₂, sym, ◌∙◌, arith, List,
  length,
}
use mathlib.Core.Path.{subst}
use native.Mathlib.Nat.{pow-suc, div-div-eq-div-mul}
use mcu_crypto_asm.Bytes.{IsBytes, le_number}
use mcu_crypto_asm.Curve25519.{
  Fe51, fe_one, fe_zero, Ladder, bit_at, cswap_both, ladder_step, ladder_loop, clamp, from_bytes,
  invert, mul, scalarmult,
}
use mcu_crypto_asm.Curve25519.Limbs.{prime, IsCarried, IsCarried-IsLoose}
use mcu_crypto_asm.Curve25519.Field.{residue, mul_mod, mul_lem}
use mcu_crypto_asm.Curve25519.Inverse.{invert_lem}
use mcu_crypto_asm.Curve25519.Packing.{to_bytes_lem}
use mcu_crypto_asm.Curve25519.Unpacking.{from_bytes_lem}
use mcu_crypto_asm.Curve25519.Clamp.{bit_at_lem, clamp_lem}
use mcu_crypto_asm.Curve25519.Steps.{Rung, turn, residues, IsAt, ladder_step-IsAt, cswap_both_lem}

-- The `n` low bits of `k`, the highest first: the multiples `k` and `k + 1` of the point `u`.
pub rungs : ℕ → ℕ → ℕ → Rung
rungs u zero k = record { x2 = 1; z2 = 0; x3 = u; z3 = 1 }
rungs u (suc n) k = turn u (k % 2) (rungs u n (k / 2))

-- The function of RFC 7748 on numbers: the clamped scalar, and the coordinate without its top bit.
pub clamped : ℕ → ℕ
clamped k = 2 ^ 254 + k % 2 ^ 254 / 8 * 8

pub x25519 : ℕ → ℕ → ℕ
x25519 k u =
    let r = rungs (u % 2 ^ 255 % prime) 255 (clamped k) in mul_mod r.x2 (r.z2 ^ (prime - 2) % prime)

halved : (n t : ℕ) → n / 2 ^ t / 2 ≡ n / 2 ^ suc t
halved n t = div-div-eq-div-mul n (2 ^ t) 2 ∙ ap (λ k. n / k) (sym (pow-suc 2 t))

-- The loop over the `n` low bits, from where the bits above them lead.
ladder_loop-IsAt :
    (x1 : Fe51) (bytes : List ℕ) (n m : ℕ) (l : Ladder)
    → IsCarried x1
    → IsBytes bytes
    → IsAt (rungs (residue x1) m (le_number bytes / 2 ^ n)) l
    → IsAt (rungs (residue x1) (n + m) (le_number bytes)) (ladder_loop x1 bytes n l)
unfolding ladder_loop rungs
ladder_loop-IsAt x1 bytes zero m l h b at =
    let same : 0 + m ≡ m = omega arith in
    let whole : le_number bytes / 2 ^ 0 ≡ le_number bytes = omega arith in
    rw same (subst (λ k. IsAt (rungs (residue x1) m k) l) whole at)
ladder_loop-IsAt x1 bytes (suc t) m l h b at =
    let k = le_number bytes / 2 ^ t in
    let kt : bit_at bytes t ≡ k % 2 = bit_at_lem bytes t b in
    let here = subst (λ j. IsAt (rungs (residue x1) m j) l) (sym (halved (le_number bytes) t)) at in
    let same : suc t + m ≡ t + suc m = omega arith in
    let next = ladder_step-IsAt x1 (k % 2) l h (omega arith) here in
    rw (same, kt) (ladder_loop-IsAt x1 bytes t (suc m) (ladder_step x1 (k % 2) l) h b next)

-- The ladder at its end: carried variables that stand for the multiples of the point.
ladder-Stands :
    (x1 : Fe51) (bytes : List ℕ) (l : Ladder)
    → IsAt (rungs (residue x1) 255 (le_number bytes)) l
    → IsCarried (cswap_both l.swap l).x2
      × IsCarried (cswap_both l.swap l).z2
      × (residue (cswap_both l.swap l).x2 ≡ (rungs (residue x1) 255 (le_number bytes)).x2)
      × (residue (cswap_both l.swap l).z2 ≡ (rungs (residue x1) 255 (le_number bytes)).z2)
unfolding residues
ladder-Stands x1 bytes l at =
    let (sound, swapped) = cswap_both_lem l.swap l at.bit at.sound in
    let all = swapped ∙ at.same in
    (sound.c2, sound.d2, ap (λ (r : Rung). r.x2) all, ap (λ (r : Rung). r.z2) all)

first_rung :
    (x1 : Fe51) (k : ℕ)
    → IsCarried x1
    → IsAt
        (rungs (residue x1) 0 k)
        (record { x2 = fe_one; z2 = fe_zero; x3 = x1; z3 = fe_one; swap = 0 })
unfolding rungs residues residue
first_rung x1 k h =
    let one : IsCarried fe_one = record {
      b0 = omega arith;
      b1 = omega arith;
      b2 = omega arith;
      b3 = omega arith;
      b4 = omega arith;
    } in
    let zero' : IsCarried fe_zero = record {
      b0 = omega arith;
      b1 = omega arith;
      b2 = omega arith;
      b3 = omega arith;
      b4 = omega arith;
    } in
    record {
      sound = record { c2 = one; d2 = zero'; c3 = h; d3 = one };
      bit = omega arith;
      same = refl;
    }

above : (n : ℕ) → n < 2 ^ 255 → n / 2 ^ 255 ≡ 0
above n h = omega arith

-- Of 32 bytes each, `scalarmult` writes 32 bytes, the number of which is what the Montgomery
-- ladder of RFC 7748 over the residues modulo `2 ^ 255 - 19` gives for the clamped number of the
-- scalar and the number of the point without its top bit: the `x` of the multiple times the power
-- `p - 2` of its `z`.
pub scalarmult-x25519 :
    (scalar point : List ℕ)
    → length scalar ≡ 32
    → IsBytes scalar
    → length point ≡ 32
    → IsBytes point
    → IsBytes (scalarmult scalar point)
      × (length (scalarmult scalar point) ≡ 32)
      × (le_number (scalarmult scalar point) ≡ x25519 (le_number scalar) (le_number point))
unfolding scalarmult x25519 clamped residue
scalarmult-x25519 scalar point e b f c =
    let (small, x1_number) = from_bytes_lem point f c in
    let (bytes, scalar_number) = clamp_lem scalar e b in
    let x1 = from_bytes point in
    let start : Ladder = record { x2 = fe_one; z2 = fe_zero; x3 = x1; z3 = fe_one; swap = 0 } in
    let l = ladder_loop x1 (clamp scalar) 255 start in
    let at = ladder_loop-IsAt x1 (clamp scalar) 255 0 start small bytes (first_rung x1 _ small) in
    let (c2, d2, x2, z2) = ladder-Stands x1 (clamp scalar) l at in
    let (ci, inverse) = invert_lem (cswap_both l.swap l).z2 d2 in
    let (cm, product) = mul_lem (IsCarried-IsLoose c2) (IsCarried-IsLoose ci) in
    let (out, count, out_number) =
      to_bytes_lem (mul (cswap_both l.swap l).x2 (invert (cswap_both l.swap l).z2))
        (IsCarried-IsLoose cm) in
    let arguments : rungs (residue x1) 255 (le_number (clamp scalar))
        ≡ rungs (le_number point % 2 ^ 255 % prime) 255 (clamped (le_number scalar)) =
      ap₂ (λ u k. rungs u 255 k) (ap (λ n. n % prime) x1_number) scalar_number in
    (
      out,
      count,
      out_number
          ∙ product
          ∙ ap₂ mul_mod (x2 ∙ ap (λ (r : Rung). r.x2) arguments) (
              inverse ∙ ap (λ t. t ^ (prime - 2) % prime) (z2 ∙ ap (λ (r : Rung). r.z2) arguments)),
    )
