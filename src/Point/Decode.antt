-- ===== src/Point/Decode.antt =====
-- `decode` of src/point.rs against the numbers that the octets spell.
use mcu_crypto_asm.Base.{
  ℕ, ◌+◌, ◌*◌, ◌<◌, ◌≡◌, ◌⊎◌, inl, inr, ◌∙◌, arith, List, length, not, ◌&&◌, Bool-cases, clash,
  Option, some, none, ==_iff, ◌==◌,
}
use mcu_crypto_asm.Base.{get_or, take, drop, length-take, length-drop}
use mathlib.Core.Path.{subst}
use mcu_crypto_asm.Bytes.{IsBytes, be_limbs, be_limbs_lem, be_number, IsBytes-take, IsBytes-drop}
use mcu_crypto_asm.Bignum.Value.{value}
use mcu_crypto_asm.Curve.{CurveParams}
use mcu_crypto_asm.Fe.{from_int}
use mcu_crypto_asm.Fe.Laws.{Stands, from_int-Stands}
use mcu_crypto_asm.Point.{
  Point, Result, ok, err, bad_length, bad_point, is_on_curve, not_below, decompress, decode_full,
  decode_compressed, decode,
}
use mcu_crypto_asm.Point.Domain.{IsCurve}
use mcu_crypto_asm.Point.Sum.{IsAt}
use mcu_crypto_asm.Point.Affine.{OnCurve, affine_point-OnCurve}
use mcu_crypto_asm.Point.Parity.{IsWide, not_below_iff}
use mcu_crypto_asm.Point.Decompress.{
  IsPointAt, IsDecompressed, too_large, no_root, root_found, decompress-IsDecompressed,
}

module _ (c : CurveParams) (k : IsCurve c) where
  abbrev prime : ℕ
  prime = value c.field.p

  -- The numbers that the octets after the tag spell.
  abbrev pub first_number : List ℕ → ℕ
  first_number bytes = be_number (take (4 * c.field.n) (drop 1 bytes))

  abbrev pub second_number : List ℕ → ℕ
  second_number bytes = be_number (drop (1 + 4 * c.field.n) bytes)

  -- What `decode` answers: an error for any other length, an error for a wrong tag, an error for
  -- a coordinate that is not below the prime or a pair off the curve, and otherwise the point; for
  -- the compressed form an error if the equation has no root, and otherwise the root's point.
  pub data IsDecoded (bytes : List ℕ) : Result Point → Type 0 where
    wrong_length :
        ¬ (length bytes ≡ 1 + 8 * c.field.n)
        → ¬ (length bytes ≡ 1 + 4 * c.field.n)
        → IsDecoded bytes (err bad_length)
    full_tag :
        length bytes ≡ 1 + 8 * c.field.n
        → ¬ (get_or bytes 0 0 ≡ 4)
        → IsDecoded bytes (err bad_point)
    refused :
        length bytes ≡ 1 + 8 * c.field.n
        → ¬ (
            (first_number bytes < prime)
            × (second_number bytes < prime)
            × OnCurve c k (first_number bytes) (second_number bytes))
        → IsDecoded bytes (err bad_point)
    accepted :
        {p : Point}
        → length bytes ≡ 1 + 8 * c.field.n
        → get_or bytes 0 0 ≡ 4
        → first_number bytes < prime
        → second_number bytes < prime
        → OnCurve c k (first_number bytes) (second_number bytes)
        → IsAt c k (first_number bytes) (second_number bytes) 1 p
        → IsDecoded bytes (ok p)
    compressed_tag :
        length bytes ≡ 1 + 4 * c.field.n
        → ¬ (get_or bytes 0 0 ≡ 2)
        → ¬ (get_or bytes 0 0 ≡ 3)
        → IsDecoded bytes (err bad_point)
    compressed_refused :
        length bytes ≡ 1 + 4 * c.field.n
        → IsDecompressed c k (be_number (drop 1 bytes)) (get_or bytes 0 0 == 3) none
        → IsDecoded bytes (err bad_point)
    decompressed :
        {p : Point}
        → length bytes ≡ 1 + 4 * c.field.n
        → (get_or bytes 0 0 ≡ 2) ⊎ (get_or bytes 0 0 ≡ 3)
        → be_number (drop 1 bytes) < prime
        → IsPointAt c k (be_number (drop 1 bytes)) (get_or bytes 0 0 == 3) p
        → IsDecoded bytes (ok p)

  -- Octets of the field's length as limbs.
  wide :
      (bytes : List ℕ)
      → length bytes ≡ 4 * c.field.n
      → IsBytes bytes
      → IsWide c k (be_limbs bytes) × (value (be_limbs bytes) ≡ be_number bytes)
  wide bytes n h =
      let (size, limbs, number) = be_limbs_lem c.field.n bytes n h in
      (record { size = size ∙ k.field.size; limbs = limbs }, number)

  decode_compressed-IsDecoded :
      (bytes : List ℕ)
      → length bytes ≡ 1 + 4 * c.field.n
      → IsBytes bytes
      → IsDecoded bytes (decode_compressed c bytes)
  unfolding decode_compressed
  decode_compressed-IsDecoded bytes n h =
      let tag = get_or bytes 0 0 in
      let (w, number) =
        wide (drop 1 bytes) (omega (arith, length-drop 1 bytes, n)) (IsBytes-drop 1 bytes h) in
      let answer =
        subst
          (λ x. IsDecompressed c k x (tag == 3) (decompress c (be_limbs (drop 1 bytes)) (tag == 3)))
          number (decompress-IsDecompressed c k (be_limbs (drop 1 bytes)) (tag == 3) w) in
      elim (Bool-cases (not (tag == 2) && not (tag == 3))) [
        | inl wrong ↦ rw wrong (compressed_tag n (ground (arith, wrong)) (ground (arith, wrong)))
        | inr right ↦ rw right (by_point _ (ground (arith, right)) answer)
      ]
    where
      by_point :
          (a : Option Point)
          → (get_or bytes 0 0 ≡ 2) ⊎ (get_or bytes 0 0 ≡ 3)
          → IsDecompressed c k (be_number (drop 1 bytes)) (get_or bytes 0 0 == 3) a
          → IsDecoded bytes (elim a [ some p ↦ ok p | none ↦ err bad_point ])
      by_point a tag (too_large h) = compressed_refused n (too_large h)
      by_point a tag (no_root r lt e h) = compressed_refused n (no_root r lt e h)
      by_point a tag (root_found lt p) = decompressed n tag lt p

  decode_full-IsDecoded :
      (bytes : List ℕ)
      → length bytes ≡ 1 + 8 * c.field.n
      → IsBytes bytes
      → IsDecoded bytes (decode_full c bytes)
  unfolding decode_full
  decode_full-IsDecoded bytes n h =
      let f = c.field in
      let xs = take (4 * f.n) (drop 1 bytes) in
      let ys = drop (1 + 4 * f.n) bytes in
      let (wx, ex) =
        wide xs (omega (arith, length-take (4 * f.n) (drop 1 bytes), length-drop 1 bytes, n))
          (IsBytes-take (4 * f.n) (drop 1 bytes) (IsBytes-drop 1 bytes h)) in
      let (wy, ey) =
        wide ys (omega (arith, length-drop (1 + 4 * f.n) bytes, n))
          (IsBytes-drop (1 + 4 * f.n) bytes h) in
      let xi = be_limbs xs in
      let yi = be_limbs ys in
      let p : Point = record { x = from_int f xi; y = from_int f yi; z = f.one } in
      let x_test = not_below_iff c k xi wx in
      let y_test = not_below_iff c k yi wy in
      elim (Bool-cases (get_or bytes 0 0 == 4)) [
        | inr wrong ↦ rw wrong (full_tag n (λ e. clash wrong ((==_iff (get_or bytes 0 0) 4).1 e)))
        | inl tag ↦ elim (Bool-cases (not_below f xi)) [
          | inl ax ↦ rw (tag, ax) (refused n (λ q. clash (x_test.1 (rw ex q.0)) ax))
          | inr bx ↦ elim (Bool-cases (not_below f yi)) [
            | inl ay ↦ rw (tag, bx, ay) (refused n (λ q. clash (y_test.1 (rw ey q.1)) ay))
            | inr by' ↦
                let x_small = x_test.0 bx in
                let y_small = y_test.0 by' in
                let at : IsAt c k (first_number bytes) (second_number bytes) 1 p = record {
                  at_x =
                      subst (λ t. Stands f k.field t (from_int f xi)) ex
                        (from_int-Stands f k.field xi wx.size wx.limbs (omega (arith, x_small)));
                  at_y =
                      subst (λ t. Stands f k.field t (from_int f yi)) ey
                        (from_int-Stands f k.field yi wy.size wy.limbs (omega (arith, y_small)));
                  at_z = k.one;
                } in
                let test =
                  affine_point-OnCurve c k (first_number bytes) (second_number bytes) p at in
                elim (Bool-cases (is_on_curve c p)) [
                  | inr off ↦ rw (tag, bx, by', off) (refused n (λ q. clash off (test.1 q.2)))
                  | inl on ↦
                      rw (tag, bx, by', on)
                        (accepted n ((==_iff (get_or bytes 0 0) 4).0 tag)
                          (omega (arith, x_small, ex)) (omega (arith, y_small, ey)) (test.0 on) at)
                ]
          ]
        ]
      ]

  -- Of any octets, on a curve with odd prime and the chains of `invert` and `sqrt`, `decode`
  -- gives an error for a length that is neither form's and for a wrong tag; in the full form a
  -- point exactly when both coordinates are below the prime and satisfy the equation of the
  -- curve, with these coordinates; in the compressed form a point on the curve with the
  -- coordinate that the octets spell, and a `y` of the parity of the tag or zero, and an error
  -- only if the coordinate is not below the prime or the power `(p + 1) / 4` of the equation's
  -- right side is no root of it.
  pub decode-IsDecoded : (bytes : List ℕ) → IsBytes bytes → IsDecoded bytes (decode c bytes)
  unfolding decode
  decode-IsDecoded bytes h =
      let size = length bytes in
      elim (Bool-cases (size == 1 + 8 * c.field.n)) [
        | inl full ↦ rw full (decode_full-IsDecoded bytes ((==_iff size _).0 full) h)
        | inr other ↦ elim (Bool-cases (size == 1 + 4 * c.field.n)) [
          | inl compressed ↦
              rw (other, compressed)
                (decode_compressed-IsDecoded bytes ((==_iff size _).0 compressed) h)
          | inr wrong ↦
              rw (other, wrong)
                (wrong_length (λ e. clash other ((==_iff size _).1 e))
                  (λ e. clash wrong ((==_iff size _).1 e)))
        ]
      ]
