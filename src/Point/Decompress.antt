-- ===== src/Point/Decompress.antt =====
-- `decompress` of src/point.rs: a root of the equation of the curve, of the parity asked for.
use mcu_crypto_asm.Base.{
  ℕ, ◌+◌, ◌*◌, ◌/◌, ◌%◌, ◌^◌, ◌<◌, ◌≤◌, ◌≡◌, ◌⊎◌, inl, inr, refl, sym, ◌∙◌, arith, List, Cong,
  Cong-add, Bool, Bool-cases, clash, Option, some, none, ◌==◌,
}
use mcu_crypto_asm.Bignum.Value.{value}
use mcu_crypto_asm.Curve.{CurveParams}
use mcu_crypto_asm.Fe.{Fe, from_int}
use mcu_crypto_asm.Fe.Compare.{is_zero_iff}
use mcu_crypto_asm.Fe.Root.{cand, IsAnswer, of_zero, found, nothing}
use mcu_crypto_asm.Fe.Laws.{Stands, from_int-Stands}
use mcu_crypto_asm.Point.{Point, curve_rhs, not_below, with_parity, decompress}
use mcu_crypto_asm.Point.Domain.{IsCurve, zero-Stands, is_zero-Stands}
use mcu_crypto_asm.Point.Signed.{sqr-eq_iff}
use mcu_crypto_asm.Point.Sum.{IsAt}
use mcu_crypto_asm.Point.Affine.{OnCurve, curve_rhs-Means}
use mcu_crypto_asm.Point.Parity.{IsWide, not_below_iff, with_parity-HasParity}

module _ (c : CurveParams) (k : IsCurve c) where
  abbrev prime : ℕ
  prime = value c.field.p

  -- No number squares to `r`, as far as the power `(p + 1) / 4` tells.
  abbrev pub HasNoRoot : ℕ → Type 0
  HasNoRoot r = ¬ Cong prime (r ^ ((prime + 1) / 4) * r ^ ((prime + 1) / 4)) r

  -- The point `(x, y)` of the curve, `y` with the parity that is asked for.
  pub record IsPointAt (x : ℕ) (asked : Bool) (p : Point) : Type 0 where
    pub y : ℕ
    pub below : y < prime
    pub on_curve : OnCurve c k x y
    pub parity : ((y % 2 == 1) ≡ asked) ⊎ (y ≡ 0)
    pub at : IsAt c k x y 1 p

  pub data IsDecompressed (x : ℕ) (asked : Bool) : Option Point → Type 0 where
    too_large : prime ≤ x → IsDecompressed x asked none
    no_root :
        (r : ℕ)
        → x < prime
        → Cong prime (r + 3 * x) (x * x * x + k.b)
        → HasNoRoot r
        → IsDecompressed x asked none
    root_found : {p : Point} → x < prime → IsPointAt x asked p → IsDecompressed x asked (some p)

  module _ (x : ℕ) (small : x < prime) (asked : Bool) (u : Fe)
      (s : Stands c.field k.field x u) where
    -- A root of the right side of the equation gives a point.
    point_of :
        (y r : ℕ) (v : Fe)
        → Cong prime (r + 3 * x) (x * x * x + k.b)
        → Stands c.field k.field y v
        → Cong prime (y * y) r
        → IsPointAt x asked (record { x = u; y = with_parity c.field asked v; z = c.field.one })
    point_of y r v e t q =
        let w = with_parity-HasParity c k asked y v t in
        record {
          y = w.root;
          below = w.below;
          on_curve = Cong-add prime (w.root * w.root) r (3 * x) (3 * x) (w.square ∙ q) refl ∙ e;
          parity = w.parity;
          at = record { at_x = s; at_y = w.stands; at_z = k.one };
        }

    by_answer :
        (r : ℕ) (rhs : Fe) (answer : Option Fe)
        → Stands c.field k.field r rhs
        → Cong prime (r + 3 * x) (x * x * x + k.b)
        → IsAnswer c.field rhs answer
        → IsDecompressed x asked (elim answer [
          | some y ↦ some (record { x = u; y = with_parity c.field asked y; z = c.field.one })
          | none ↦ none
        ])
    by_answer r rhs answer t e (of_zero z) =
        let zero = (is_zero-Stands c.field k.field r rhs t).0 ((is_zero_iff rhs).1 z) in
        root_found small (point_of 0 r _ e (zero-Stands c.field k.field) (sym zero))
    by_answer r rhs answer t e (found q) =
        let root = k.root r rhs t in
        root_found small (
          point_of _ r _ e root
            ((sqr-eq_iff c.field k.field _ r (cand c.field rhs) rhs root t).0 q))
    by_answer r rhs answer t e (nothing nz ne) =
        no_root r small e
          (λ q. ne ((sqr-eq_iff c.field k.field _ r (cand c.field rhs) rhs (k.root r rhs t) t).1 q))

  -- `decompress` of limbs of the field's size, on every branch.
  pub decompress-IsDecompressed :
      (limbs : List ℕ) (asked : Bool)
      → IsWide c k limbs
      → IsDecompressed (value limbs) asked (decompress c limbs asked)
  unfolding decompress
  decompress-IsDecompressed limbs asked w =
      let test = not_below_iff c k limbs w in
      elim (Bool-cases (not_below c.field limbs)) [
        | inl above ↦ rw above (too_large (at_least λ lt. clash (test.1 lt) above))
        | inr below ↦
            let small = test.0 below in
            let s = from_int-Stands c.field k.field limbs w.size w.limbs (omega (arith, small)) in
            let rhs = curve_rhs-Means c k (value limbs) s in
            rw below (
              by_answer (value limbs) small asked (from_int c.field limbs) s rhs.number
                (curve_rhs c (from_int c.field limbs)) _ rhs.stands rhs.same
                (k.answers rhs.number _ rhs.stands))
      ]
    where
      at_least : {x y : ℕ} → (x < y → ⊥) → y ≤ x
      at_least h = omega arith
