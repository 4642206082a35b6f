-- ===== src/Scalar/Decode.antt =====
-- `from_be_bytes` and `from_be_bytes_reduce` against the number that the bytes spell.
use mcu_crypto_asm.Base.{ℕ, ◌+◌, ◌-◌, ◌*◌, ◌%◌, ◌<◌, ◌≤◌, ◌≡◌, refl, ap, ◌∙◌, List, length, arith}
use mcu_crypto_asm.Base.{
  true, false, not, Bool-cases, ==_iff, ◌==◌, inl, inr, if◌then◌else◌, replicate,
}
use mcu_crypto_asm.Base.{
  length-replicate, take, length-take, leb, ◌++◌, length-append, wrapping_sub32, Cong-mul,
}
use mcu_crypto_asm.Base.{clash}
use mcu_crypto_asm.Bytes.{be_limbs, be_limbs_lem, be_number, IsBytes}
use mcu_crypto_asm.Bytes.{IsBytes-take, IsBytes-append, IsBytes-zeros, be_number-padded}
use mcu_crypto_asm.Bignum.{overflowing_sub_loop, select_limbs, cond_sub_p}
use mcu_crypto_asm.Bignum.Value.{value, radix, value-lt-radix}
use mcu_crypto_asm.Bignum.Reduce.{cond_sub_p-Holds, select-eq-cond_sub_p}
use mcu_crypto_asm.Curve.{CurveParams}
use mcu_crypto_asm.Scalar.{Scalar, Result, ok, err, bad_length, bad_scalar, less_than, from_int}
use mcu_crypto_asm.Scalar.{from_be_bytes, from_be_bytes_reduce}
use mcu_crypto_asm.Scalar.Laws.{IsOrder, IsWide, Stands, from_int-Stands, less_than_iff}
use mathlib.Core.Path.{subst}
use native.Mathlib.Nat.{mod-lt, mod-mod}

module _ (c : CurveParams) (m : IsOrder c) where
  -- What `from_be_bytes` answers: an error for a wrong length, an error for a number that is not
  -- below the order, and otherwise the scalar that stands for the number of the bytes.
  pub data IsDecoded (bytes : List ℕ) : Result Scalar → Type 0 where
    wrong_length : ¬ (length bytes ≡ 4 * length c.order) → IsDecoded bytes (err bad_length)
    too_large :
        length bytes ≡ 4 * length c.order
        → value c.order ≤ be_number bytes
        → IsDecoded bytes (err bad_scalar)
    decoded :
        {s : Scalar}
        → length bytes ≡ 4 * length c.order
        → be_number bytes < value c.order
        → Stands c m (be_number bytes) s
        → IsDecoded bytes (ok s)

  wide :
      (bytes : List ℕ)
      → length bytes ≡ 4 * length c.order
      → IsBytes bytes
      → IsWide c (be_limbs bytes)
  wide bytes n h =
      let (k, l, v) = be_limbs_lem (length c.order) bytes n h in record { size = k; limbs = l }

  -- `from_be_bytes` of any bytes: an error for a wrong length, an error for a number not below
  -- the order, and otherwise the scalar that stands for the number of the bytes.
  pub from_be_bytes-IsDecoded :
      (bytes : List ℕ) → IsBytes bytes → IsDecoded bytes (from_be_bytes c bytes)
  unfolding from_be_bytes
  from_be_bytes-IsDecoded bytes h = elim (Bool-cases (length bytes == 4 * length c.order)) [
    | inr no_fit ↦
        rw (no_fit, from_be_bytes)
          (wrong_length λ e. clash no_fit ((==_iff (length bytes) (4 * length c.order)).1 e))
    | inl fit ↦
        rw (fit, from_be_bytes) (right_length ((==_iff (length bytes) (4 * length c.order)).0 fit))
  ]
    where
      at_least : {x y : ℕ} → (x < y → ⊥) → y ≤ x
      at_least k = omega arith

      right_length :
          length bytes ≡ 4 * length c.order
          → IsDecoded bytes (
              if not (less_than (be_limbs bytes) c.order)
              then err bad_scalar
              else ok (from_int c (be_limbs bytes)))
      right_length n =
          let w = wide bytes n h in
          let v : value (be_limbs bytes) ≡ be_number bytes =
            (be_limbs_lem (length c.order) bytes n h).2 in
          elim (Bool-cases (less_than (be_limbs bytes) c.order)) [
            | inl lt ↦
                let small = (less_than_iff c m (be_limbs bytes) w).0 lt in
                rw lt (
                  decoded n (omega (arith, v, small)) (
                    subst (λ x. Stands c m x (from_int c (be_limbs bytes))) v
                      (from_int-Stands c m (be_limbs bytes) w (omega (arith, small)))))
            | inr ge ↦ rw ge (
                too_large n (
                  omega (
                    arith,
                    v,
                    at_least λ small. clash ge ((less_than_iff c m (be_limbs bytes) w).1 small),
                  )))
          ]

  Stands-mod : (x : ℕ) {s : Scalar} → Stands c m (x % value c.order) s → Stands c m x s
  Stands-mod x h = record {
    size = h.size;
    limbs = h.limbs;
    number =
        h.number
        ∙ Cong-mul (value c.order) r r (x % value c.order) x refl (mod-mod x (value c.order));
  }
    where
      r : ℕ
      r = radix (length c.order)

  -- The last part of `from_be_bytes_reduce`, on exactly `4 * N` bytes.
  abbrev reduced : List ℕ → Scalar
  reduced bytes = from_int c (
      select_limbs (wrapping_sub32 (overflowing_sub_loop (be_limbs bytes) c.order 0).1 1)
        (be_limbs bytes) (overflowing_sub_loop (be_limbs bytes) c.order 0).0)

  reduced-Stands :
      (bytes : List ℕ)
      → length bytes ≡ 4 * length c.order
      → IsBytes bytes
      → radix (length c.order) ≤ value c.order + value c.order
      → Stands c m (be_number bytes) (reduced bytes)
  reduced-Stands bytes n h half =
      let w = wide bytes n h in
      let v : value (be_limbs bytes) ≡ be_number bytes =
        (be_limbs_lem (length c.order) bytes n h).2 in
      let out =
        cond_sub_p-Holds (be_limbs bytes) 0 c.order (value (be_limbs bytes)) w.size w.limbs m.limbs
          (omega arith) (omega arith)
          (omega (arith, value-lt-radix (be_limbs bytes) w.limbs, ap radix w.size)) in
      let below = mod-lt (value (be_limbs bytes)) {m = value c.order} (omega (arith, m.positive)) in
      rw (select-eq-cond_sub_p (be_limbs bytes) c.order w.size w.limbs m.limbs) (
        Stands-mod (be_number bytes) (
          subst (λ x. Stands c m x (from_int c (cond_sub_p (be_limbs bytes) 0 c.order)))
            (out.number ∙ ap (λ t. t % value c.order) v)
            (from_int-Stands c m (cond_sub_p (be_limbs bytes) 0 c.order)
              (record { size = out.size ∙ w.size; limbs = out.limbs })
              (omega (arith, out.number, below)))))

  -- Of at least `4 * N` bytes, `from_be_bytes_reduce` gives the scalar that stands for the number
  -- of the leftmost `4 * N`, when the order is above half the radix.
  pub from_be_bytes_reduce-truncated :
      (bytes : List ℕ)
      → IsBytes bytes
      → radix (length c.order) ≤ value c.order + value c.order
      → 4 * length c.order ≤ length bytes
      → Stands c m (be_number (take (4 * length c.order) bytes)) (from_be_bytes_reduce c bytes)
  unfolding from_be_bytes_reduce
  from_be_bytes_reduce-truncated bytes h half fits =
      let n : ℕ = 4 * length c.order in
      let test : leb n (length bytes) ≡ true = ground arith in
      rw (test, from_be_bytes_reduce)
        (reduced-Stands (take n bytes) (length-take n bytes ∙ omega arith) (IsBytes-take n bytes h)
          half)

  -- Of fewer than `4 * N` bytes, `from_be_bytes_reduce` gives the scalar that stands for the
  -- number of all of them, when the order is above half the radix.
  pub from_be_bytes_reduce-padded :
      (bytes : List ℕ)
      → IsBytes bytes
      → radix (length c.order) ≤ value c.order + value c.order
      → length bytes < 4 * length c.order
      → Stands c m (be_number bytes) (from_be_bytes_reduce c bytes)
  unfolding from_be_bytes_reduce
  from_be_bytes_reduce-padded bytes h half less =
      let n : ℕ = 4 * length c.order in
      let test : leb n (length bytes) ≡ false = ground arith in
      let pad : List ℕ = replicate (n - length bytes) 0 in
      rw (test, from_be_bytes_reduce)
        (subst (λ x. Stands c m x (reduced (pad ++ bytes)))
          (be_number-padded (n - length bytes) bytes)
          (reduced-Stands (pad ++ bytes)
            (length-append pad bytes ∙ omega (arith, length-replicate {A = ℕ} (n - length bytes) 0))
            (IsBytes-append pad bytes (IsBytes-zeros (n - length bytes)) h) half))
