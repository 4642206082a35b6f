-- ===== src/Point/Jacobian/Comb/Turn.antt =====
-- `mul_base` of PointJacobian in src/point.rs against double and add with ordinary tests and reads.
use mcu_crypto_asm.Base.{
  ℕ, zero, suc, ◌+◌, ◌*◌, ◌<◌, ◌≤◌, ◌≡◌, refl, ap, sym, ◌∙◌, arith, List, [], ◌∷◌, length, get_or,
  take, drop, All, length-take, length-drop, ◌==◌, ==_iff, if◌then◌else◌, Bool-cases, inl, inr,
  ones32,
}
use mcu_crypto_asm.Bignum.{select_limbs}
use mcu_crypto_asm.Bignum.Reduce.{select_limbs-zero, select_limbs-ones}
use mcu_crypto_asm.Curve.{CurveParams}
use mcu_crypto_asm.Fe.{Fe}
use mcu_crypto_asm.Point.Domain.{IsCurve}
use mcu_crypto_asm.Point.Jacobian.{PointJacobian, jacobian_identity, double, add_mixed}
use mcu_crypto_asm.Point.Jacobian.Comb.{
  Entry, zero_mask, key_bit, comb_digit, select_mask, comb_add, comb_row, comb_loop, mul_base,
}
use mcu_crypto_asm.Point.Jacobian.Comb.Scan.{
  IsEntry, scan_lem, zero_mask-zero, zero_mask-positive, comb_digit_lem, comb_digit-lt,
}
use mcu_crypto_asm.Point.Jacobian.Comb.Element.{
  IsElement, IsJacobian, jacobian_identity-IsJacobian, double-IsJacobian, add_mixed-IsJacobian,
}

-- The digit as a number: the bits of the key at the four places.
abbrev pub place_digit : List ℕ → (d t i : ℕ) → ℕ
place_digit k d t i =
    key_bit k (t * 4 * d + i)
    + 2 * key_bit k ((t * 4 + 1) * d + i)
    + 4 * key_bit k ((t * 4 + 2) * d + i)
    + 8 * key_bit k ((t * 4 + 3) * d + i)

-- One turn by an ordinary test and an ordinary read.
pub pick_add : CurveParams → (k : List ℕ) → List Entry → (d i t : ℕ) → PointJacobian → PointJacobian
pick_add c k table d i t acc =
    let digit = place_digit k d t i in
    let (x, y) = get_or (take 16 (drop (t * 16) table)) digit ([], []) in
    if digit == 0 then acc else add_mixed c acc x y

pub pick_base : CurveParams → (k : List ℕ) → List Entry → (d ntables : ℕ) → PointJacobian
pick_base c k table d ntables =
    comb_loop c (pick_add c k table d) ntables d (jacobian_identity c.field)

module _ (c : CurveParams) (k : IsCurve c) where
  -- Both coordinates are reduced elements.
  pub record IsPair (e : Entry) : Type 0 where
    pub pair_x : IsElement c k e.0
    pub pair_y : IsElement c k e.1

  IsPair-IsEntry : {e : Entry} → IsPair e → IsEntry c.field.n e
  IsPair-IsEntry s = record {
    size_x = s.pair_x.stands.size ∙ sym k.field.size;
    size_y = s.pair_y.stands.size ∙ sym k.field.size;
    limbs_x = s.pair_x.stands.limbs;
    limbs_y = s.pair_y.stands.limbs;
  }

  entries : (table : List Entry) → All IsPair table → All (IsEntry c.field.n) table
  entries [] h = tt
  entries (e ∷ table) (he, h) = (IsPair-IsEntry he, entries table h)

  point_eq : {p q : PointJacobian} → p.x ≡ q.x → p.y ≡ q.y → p.z ≡ q.z → p ≡ q
  point_eq {p} {q} ex ey ez = λ i. record { x = ex i; y = ey i; z = ez i }

  take-IsPair : (n : ℕ) (xs : List Entry) → All IsPair xs → All IsPair (take n xs)
  take-IsPair zero xs h = tt
  take-IsPair (suc n) [] h = tt
  take-IsPair (suc n) (x ∷ xs) (hx, h) = (hx, take-IsPair n xs h)

  drop-IsPair : (n : ℕ) (xs : List Entry) → All IsPair xs → All IsPair (drop n xs)
  drop-IsPair zero xs h = h
  drop-IsPair (suc n) [] h = tt
  drop-IsPair (suc n) (x ∷ xs) (hx, h) = drop-IsPair n xs h

  get_or-IsPair :
      (xs : List Entry) (i : ℕ) (e : Entry) → All IsPair xs → i < length xs → IsPair (get_or xs i e)
  get_or-IsPair [] i e h lt = absurd (omega arith)
  get_or-IsPair (x ∷ xs) zero e (hx, h) lt = hx
  get_or-IsPair (x ∷ xs) (suc i) e (hx, h) lt = get_or-IsPair xs i e h (omega arith)

  select-zero : {v w : Fe} → IsElement c k v → IsElement c k w → select_limbs 0 v w ≡ v
  select-zero {v} {w} s t = select_limbs-zero v w (s.stands.size ∙ sym t.stands.size)

  select-ones : {v w : Fe} → IsElement c k v → IsElement c k w → select_limbs ones32 v w ≡ w
  select-ones {v} {w} s t =
      select_limbs-ones v w (s.stands.size ∙ sym t.stands.size) s.stands.limbs t.stands.limbs

  select_mask-zero :
      (a b : PointJacobian) → IsJacobian c k a → IsJacobian c k b → select_mask 0 a b ≡ a
  unfolding select_mask
  select_mask-zero a b s t =
      point_eq (select-zero s.element_x t.element_x) (select-zero s.element_y t.element_y)
        (select-zero s.element_z t.element_z)

  select_mask-ones :
      (a b : PointJacobian) → IsJacobian c k a → IsJacobian c k b → select_mask ones32 a b ≡ b
  unfolding select_mask
  select_mask-ones a b s t =
      point_eq (select-ones s.element_x t.element_x) (select-ones s.element_y t.element_y)
        (select-ones s.element_z t.element_z)

  -- A turn with the masks is a turn with the test, and gives a point of reduced elements.
  record IsTurn (key : List ℕ) (table : List Entry) (d i t : ℕ) (acc : PointJacobian) : Type 0 where
    same : comb_add c key table d i t acc ≡ pick_add c key table d i t acc
    kept : IsJacobian c k (pick_add c key table d i t acc)

  comb_add-IsTurn :
      (key : List ℕ) (table : List Entry) (d i t : ℕ) (acc : PointJacobian)
      → All IsPair table
      → t * 16 + 16 ≤ length table
      → IsJacobian c k acc
      → IsTurn key table d i t acc
  unfolding comb_add pick_add
  comb_add-IsTurn key table d i t acc h fits s =
      let row = take 16 (drop (t * 16) table) in
      let pairs = take-IsPair 16 (drop (t * 16) table) (drop-IsPair (t * 16) table h) in
      let size : length row ≡ 16 =
        omega (arith, length-take 16 (drop (t * 16) table), length-drop (t * 16) table) in
      let digit = comb_digit key d t i in
      let number = comb_digit_lem key d t i in
      let small = comb_digit-lt key d t i in
      let entry = get_or row digit ([], []) in
      let read = scan_lem c.field.n row digit ([], []) (entries row pairs) size small in
      let pair = get_or-IsPair row digit ([], []) pairs (omega arith) in
      let next = add_mixed-IsJacobian c k acc s pair.pair_x pair.pair_y in
      let sum = add_mixed c acc entry.0 entry.1 in
      elim (Bool-cases (digit == 0)) [
        | inl e ↦
            let none = (==_iff digit 0).0 e in
            let mask = ap zero_mask none ∙ zero_mask-zero in
            record {
              same = rw (← number, read, mask, e) (select_mask-ones sum acc next s);
              kept = rw (← number, e) s;
            }
        | inr e ↦
            let mask = zero_mask-positive digit (ground arith) small in
            record {
              same = rw (← number, read, mask, e) (select_mask-zero sum acc next s);
              kept = rw (← number, e) next;
            }
      ]

  row_lem :
      (key : List ℕ) (table : List Entry) (d i rest t : ℕ) (acc : PointJacobian)
      → All IsPair table
      → (t + rest) * 16 ≤ length table
      → IsJacobian c k acc
      → (comb_row (comb_add c key table d i) rest t acc
          ≡ comb_row (pick_add c key table d i) rest t acc)
        × IsJacobian c k (comb_row (pick_add c key table d i) rest t acc)
  unfolding comb_row
  row_lem key table d i zero t acc h fits s = (refl, s)
  row_lem key table d i (suc rest) t acc h fits s =
      let turn = comb_add-IsTurn key table d i t acc h (omega arith) s in
      let (same, kept) =
        row_lem key table d i rest (suc t) (pick_add c key table d i t acc) h (omega arith)
          turn.kept in
      (ap (comb_row (comb_add c key table d i) rest (suc t)) turn.same ∙ same, kept)

  loop_lem :
      (key : List ℕ) (table : List Entry) (d ntables i : ℕ) (acc : PointJacobian)
      → All IsPair table
      → ntables * 16 ≤ length table
      → IsJacobian c k acc
      → comb_loop c (comb_add c key table d) ntables i acc
        ≡ comb_loop c (pick_add c key table d) ntables i acc
  unfolding comb_loop
  loop_lem key table d ntables zero acc h fits s = refl
  loop_lem key table d ntables (suc i) acc h fits s =
      let doubled = double-IsJacobian c k acc s in
      let (same, kept) = row_lem key table d i ntables 0 (double c acc) h (omega arith) doubled in
      ap (comb_loop c (comb_add c key table d) ntables i) same
      ∙ loop_lem key table d ntables i _ h fits kept

  -- On a curve, with a table of reduced elements that has sixteen entries for every digit,
  -- `mul_base` is double and add with an ordinary test of each digit for zero and an ordinary
  -- read of the table at the digit: the scan in full and the masks change nothing.
  pub mul_base-pick_base :
      (key : List ℕ) (table : List Entry) (d ntables : ℕ)
      → All IsPair table
      → length table ≡ ntables * 16
      → mul_base c key table d ntables ≡ pick_base c key table d ntables
  unfolding mul_base pick_base
  mul_base-pick_base key table d ntables h size =
      loop_lem key table d ntables d (jacobian_identity c.field) h (omega arith)
        (jacobian_identity-IsJacobian c k)
