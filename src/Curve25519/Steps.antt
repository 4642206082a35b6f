-- ===== src/Curve25519/Steps.antt =====
-- The turns of the Montgomery ladder in src/curve25519/portable.rs against formulas on residues.
use mcu_crypto_asm.Base.{
  ℕ, zero, suc, ◌-◌, ◌^◌, ◌<◌, ◌≡◌, refl, ap, ◌∙◌, arith, ◌==◌, if◌then◌else◌,
}
use mcu_crypto_asm.Base.{
  bit_and, bit_xor, bit_and_mask, bit_and-zero, bit_xor-lt, bit_xor_comm, bit_xor_cancel,
  bit_and_comm, zero-bit_xor, bit_xor_cancel_left,
}
use native.Mathlib.Nat.{mod-eq_of_lt}
use mcu_crypto_asm.Curve25519.{
  Fe51, swap_word, cswap, Ladder, cswap_both, ladder_formulas, ladder_step,
}
use mcu_crypto_asm.Curve25519.Limbs.{IsCarried, IsCarried-IsLoose}
use mcu_crypto_asm.Curve25519.Field.{
  residue, add_mod, sub_mod, mul_mod, mul_lem, sqr_lem, mul_scalar_lem, add_lem, sub_lem,
}

-- Two points by the projective `x` coordinates of RFC 7748.
pub record Rung : Type 0 where
  pub x2 : ℕ
  pub z2 : ℕ
  pub x3 : ℕ
  pub z3 : ℕ

abbrev pub flip : Rung → Rung
flip r = record { x2 = r.x3; z2 = r.z3; x3 = r.x2; z3 = r.z2 }

-- The first point doubled, and the sum of the two, whose difference has the coordinate `u`.
pub double_add : ℕ → Rung → Rung
double_add u r =
    let a = add_mod r.x2 r.z2 in
    let aa = mul_mod a a in
    let b = sub_mod r.x2 r.z2 in
    let bb = mul_mod b b in
    let e = sub_mod aa bb in
    let da = mul_mod (sub_mod r.x3 r.z3) a in
    let cb = mul_mod (add_mod r.x3 r.z3) b in
    let s = add_mod da cb in
    let d = sub_mod da cb in
    record {
      x2 = mul_mod aa bb;
      z2 = mul_mod e (add_mod aa (mul_mod e 121665));
      x3 = mul_mod s s;
      z3 = mul_mod u (mul_mod d d);
    }

abbrev pub flip_if : ℕ → Rung → Rung
flip_if k r = if k == 1 then flip r else r

-- A turn at a bit: the points exchanged for a one, before and after.
pub turn : ℕ → ℕ → Rung → Rung
turn u bit r = flip_if bit (double_add u (flip_if bit r))

unfoldable pub residues : Ladder → Rung
residues l = record { x2 = residue l.x2; z2 = residue l.z2; x3 = residue l.x3; z3 = residue l.z3 }

-- A mask of ones exchanges two words, and one of zeros keeps them.
swap_ones : (a b : ℕ) → a < 2 ^ 64 → b < 2 ^ 64 → swap_word (2 ^ 64 - 1) a b ≡ (b, a)
unfolding swap_word
swap_ones a b h k =
    let all : bit_and (2 ^ 64 - 1) (bit_xor a b) ≡ bit_xor a b =
      bit_and_comm (2 ^ 64 - 1) (bit_xor a b)
      ∙ bit_and_mask 64 (bit_xor a b)
      ∙ mod-eq_of_lt (bit_xor-lt 64 a b h k) in
    let back : bit_xor b (bit_xor a b) ≡ a = bit_xor_comm b (bit_xor a b) ∙ bit_xor_cancel a b in
    rw (all, bit_xor_cancel_left a b, back) refl

swap_zeros : (a b : ℕ) → swap_word 0 a b ≡ (a, b)
unfolding swap_word
swap_zeros a b =
    let none_left : bit_and 0 (bit_xor a b) ≡ 0 =
      bit_and_comm 0 (bit_xor a b) ∙ bit_and-zero (bit_xor a b) in
    let keep : (c : ℕ) → bit_xor c 0 ≡ c = λ c. bit_xor_comm c 0 ∙ zero-bit_xor c in
    rw (none_left, keep a, keep b) refl

cswap-zero : (a b : Fe51) → cswap 0 a b ≡ (a, b)
unfolding cswap
cswap-zero a b =
    rw
      (
        swap_zeros a.x0 b.x0,
        swap_zeros a.x1 b.x1,
        swap_zeros a.x2 b.x2,
        swap_zeros a.x3 b.x3,
        swap_zeros a.x4 b.x4,
      )
      refl

cswap-one : (a b : Fe51) → IsCarried a → IsCarried b → cswap 1 a b ≡ (b, a)
unfolding cswap
cswap-one a b h k =
    rw
      (
        swap_ones a.x0 b.x0 (omega (arith, h.b0)) (omega (arith, k.b0)),
        swap_ones a.x1 b.x1 (omega (arith, h.b1)) (omega (arith, k.b1)),
        swap_ones a.x2 b.x2 (omega (arith, h.b2)) (omega (arith, k.b2)),
        swap_ones a.x3 b.x3 (omega (arith, h.b3)) (omega (arith, k.b3)),
        swap_ones a.x4 b.x4 (omega (arith, h.b4)) (omega (arith, k.b4)),
      )
      refl

-- The variables are carried, whatever they stand for.
pub record IsSound (l : Ladder) : Type 0 where
  pub c2 : IsCarried l.x2
  pub d2 : IsCarried l.z2
  pub c3 : IsCarried l.x3
  pub d3 : IsCarried l.z3

-- `cswap_both` exchanges the points for a one.
pub cswap_both_lem :
    (swap : ℕ) (l : Ladder)
    → swap < 2
    → IsSound l
    → IsSound (cswap_both swap l) × (residues (cswap_both swap l) ≡ flip_if swap (residues l))
unfolding cswap_both residues
cswap_both_lem zero l h s =
    rw (cswap-zero l.x2 l.x3, cswap-zero l.z2 l.z3)
      (record { c2 = s.c2; d2 = s.d2; c3 = s.c3; d3 = s.d3 }, refl)
cswap_both_lem (suc zero) l h s =
    rw (cswap-one l.x2 l.x3 s.c2 s.c3, cswap-one l.z2 l.z3 s.d2 s.d3)
      (record { c2 = s.c3; d2 = s.d3; c3 = s.c2; d3 = s.d2 }, refl)
cswap_both_lem (suc (suc n)) l h s = absurd (omega arith)

-- The formulas double the first point and add the two.
pub ladder_formulas_lem :
    (x1 : Fe51) (kt : ℕ) (l : Ladder)
    → IsCarried x1
    → IsSound l
    → IsSound (ladder_formulas x1 kt l)
      × (residues (ladder_formulas x1 kt l) ≡ double_add (residue x1) (residues l))
unfolding ladder_formulas residues double_add
ladder_formulas_lem x1 kt l h s =
    let (la, ea) = add_lem s.c2 s.d2 in
    let (caa, eaa) = sqr_lem la in
    let (lb, eb) = sub_lem s.c2 s.d2 in
    let (cbb, ebb) = sqr_lem lb in
    let (le, ee) = sub_lem caa cbb in
    let (lc, ec) = add_lem s.c3 s.d3 in
    let (ld, ed) = sub_lem s.c3 s.d3 in
    let (cda, eda) = mul_lem ld la in
    let (ccb, ecb) = mul_lem lc lb in
    let (ls, es) = add_lem cda ccb in
    let (cx3, ex3) = sqr_lem ls in
    let (lt, et) = sub_lem cda ccb in
    let (ctt, ett) = sqr_lem lt in
    let (cz3, ez3) = mul_lem (IsCarried-IsLoose h) (IsCarried-IsLoose ctt) in
    let (cx2, ex2) = mul_lem (IsCarried-IsLoose caa) (IsCarried-IsLoose cbb) in
    let (cme, eme) = mul_scalar_lem 121665 le (omega arith) in
    let (lf, ef) = add_lem caa cme in
    let (cz2, ez2) = mul_lem le lf in
    (
      record { c2 = cx2; d2 = cz2; c3 = cx3; d3 = cz3 },
      rw (ex2, ez2, ef, eme, ee, ex3, es, ez3, ett, et, eda, ecb, eaa, ebb, ea, eb, ec, ed) refl,
    )

-- The ladder's variables stand for `r` with the exchange that is pending.
pub record IsAt (r : Rung) (l : Ladder) : Type 0 where
  pub sound : IsSound l
  pub bit : l.swap < 2
  pub same : flip_if l.swap (residues l) ≡ r

-- The exchange that `swap ^ kt` asks for is the pending one and that of the bit.
flip_if-bit_xor :
    (s k : ℕ)
    → s < 2
    → k < 2
    → (r : Rung) → (bit_xor s k < 2) × (flip_if (bit_xor s k) r ≡ flip_if k (flip_if s r))
flip_if-bit_xor zero zero h g r = (omega arith, refl)
flip_if-bit_xor zero (suc zero) h g r = (omega arith, refl)
flip_if-bit_xor (suc zero) zero h g r = (omega arith, refl)
flip_if-bit_xor (suc zero) (suc zero) h g r = (omega arith, refl)
flip_if-bit_xor (suc (suc s)) k h g r = absurd (omega arith)
flip_if-bit_xor zero (suc (suc k)) h g r = absurd (omega arith)
flip_if-bit_xor (suc zero) (suc (suc k)) h g r = absurd (omega arith)

-- A turn of the loop is a turn of the reference.
pub ladder_step-IsAt :
    (x1 : Fe51) (kt : ℕ) {r : Rung} (l : Ladder)
    → IsCarried x1
    → kt < 2
    → IsAt r l
    → IsAt (turn (residue x1) kt r) (ladder_step x1 kt l)
unfolding ladder_step ladder_formulas turn
ladder_step-IsAt x1 kt {r} l h k at =
    let (below, split) = flip_if-bit_xor l.swap kt at.bit k (residues l) in
    let (sound, swapped) = cswap_both_lem (bit_xor l.swap kt) l below at.sound in
    let (done, stepped) = ladder_formulas_lem x1 kt (cswap_both (bit_xor l.swap kt) l) h sound in
    record {
      sound = done;
      bit = k;
      same =
          ap (flip_if kt)
            (stepped ∙ ap (double_add (residue x1)) (swapped ∙ split ∙ ap (flip_if kt) at.same));
    }
