-- ===== src/Keccak/Squeeze.antt =====
-- What the loop of `finalize_and_squeeze` of src/keccak.rs puts out, against a reference that puts out a
-- byte at a time.
use mcu_crypto_asm.Base.{
  ℕ, zero, suc, ◌+◌, ◌-◌, ◌<◌, ◌≤◌, ◌≡◌, refl, ap, sym, ◌∙◌, List, [], ◌∷◌, ◌++◌, min, ltb, arith,
  Bool-cases, inl, inr, true, false, if◌then◌else◌, ◌==◌,
}
use mcu_crypto_asm.Base.{length}
use mathlib.Core.Path.{subst}
use mcu_crypto_asm.Keccak.{
  KeccakSponge, moved, extract_byte, extract_bytes, permute_full, squeeze_loop,
  finalize_and_squeeze, pad, apply_padding,
}

-- A byte, after the permutation if the rate is used up.
unfoldable pub stream : KeccakSponge → ℕ → List ℕ × KeccakSponge
stream s zero = ([], s)
stream s (suc n) =
    let t = permute_full s in
    let (rest, last) = stream (moved t t.state (t.pos + 1)) n in
    (extract_byte t.state t.pos ∷ rest, last)

pub record IsSqueezing (s : KeccakSponge) : Type 0 where
  pub within : s.pos ≤ s.rate
  pub some : 0 < s.rate

permute_full-lt : (s : KeccakSponge) → IsSqueezing s → (permute_full s).pos < (permute_full s).rate
unfolding permute_full
permute_full-lt s h = elim (Bool-cases (s.pos == s.rate)) [
  | inl full ↦ rw (full, permute_full) h.some
  | inr part ↦ rw (part, permute_full) (ground (arith, h.within, part))
]

permute_full-part : (s : KeccakSponge) → s.pos < s.rate → permute_full s ≡ s
unfolding permute_full
permute_full-part s room =
    let part : (s.pos == s.rate) ≡ false = ground arith in rw (part, permute_full) refl

-- The permutation may come before the next byte or at once.
stream-permute_full :
    (s : KeccakSponge) (n : ℕ) → IsSqueezing s → 0 < n → stream (permute_full s) n ≡ stream s n
unfolding stream
stream-permute_full s zero h some = absurd (omega arith)
stream-permute_full s (suc n) h some =
    ap
      (λ (t : KeccakSponge).
        let (rest, last) = stream (moved t t.state (t.pos + 1)) n in
        (extract_byte t.state t.pos ∷ rest, last))
      (permute_full-part (permute_full s) (permute_full-lt s h))

-- Bytes from one state.
stream-chunk :
    (k : ℕ) (s : KeccakSponge) (n : ℕ)
    → s.pos + k ≤ s.rate
    → (let after = moved s s.state (s.pos + k) in
        stream s (k + n)
        ≡ (extract_bytes s.state k s.pos ++ (stream after n).0, (stream after n).1))
unfolding stream extract_bytes
stream-chunk zero s n fits =
    let same : 0 + n ≡ n = omega arith in
    let here : s.pos + 0 ≡ s.pos = omega arith in
    ap (stream s) same ∙ ap (λ k. stream (moved s s.state k) n) (sym here)
stream-chunk (suc k) s n fits =
    let more : suc k + n ≡ suc (k + n) = omega arith in
    let one = moved s s.state (s.pos + 1) in
    let count : s.pos + 1 + k ≡ s.pos + suc k = omega arith in
    let put : List ℕ × KeccakSponge → List ℕ × KeccakSponge =
      λ r. (extract_byte s.state s.pos ∷ r.0, r.1) in
    ap (stream s) more
    ∙ ap
        (λ (t : KeccakSponge).
          let (rest, last) = stream (moved t t.state (t.pos + 1)) (k + n) in
          (extract_byte t.state t.pos ∷ rest, last))
        (permute_full-part s (omega (arith, fits)))
    ∙ ap put (stream-chunk k one n (omega (arith, fits)))
    ∙ ap
        (λ j. (
          extract_byte s.state s.pos
              ∷ (extract_bytes s.state k (s.pos + 1) ++ (stream (moved s s.state j) n).0),
          (stream (moved s s.state j) n).1,
        ))
        count

-- The turns that are enough: one for each byte at most, and one more for a rate that is used up.
turns_for : KeccakSponge → ℕ → ℕ
turns_for s zero = 0
turns_for s (suc n) = if s.pos == s.rate then n + 2 else n + 1

squeeze_loop-stream :
    (turns : ℕ) (s : KeccakSponge) (n : ℕ)
    → IsSqueezing s
    → turns_for s n ≤ turns
    → squeeze_loop turns s n ≡ stream s n
unfolding squeeze_loop turns_for stream
squeeze_loop-stream zero s zero h enough = refl
squeeze_loop-stream zero s (suc n) h enough = absurd (ground (arith, enough))
squeeze_loop-stream (suc turns) s zero h enough = refl
squeeze_loop-stream (suc turns) s (suc n) h enough =
    let k = min (s.rate - s.pos) (suc n) in
    let m = suc n - k in
    let after = moved s s.state (s.pos + k) in
    let after_ok : IsSqueezing after = record { within = omega (arith, h.within); some = h.some } in
    let next = if ltb 0 m then permute_full after else after in
    let (next_ok, same, few) = turn after m after_ok in
    let whole : k + m ≡ suc n = omega arith in
    ap (λ (r : List ℕ × KeccakSponge). (extract_bytes s.state k s.pos ++ r.0, r.1))
      (squeeze_loop-stream turns next m next_ok (omega (arith, few, missing enough h.within))
        ∙ same)
    ∙ sym (stream-chunk k s m (omega (arith, h.within)))
    ∙ ap (stream s) whole
  where
    turn :
        (after : KeccakSponge) (m : ℕ)
        → IsSqueezing after
        → (let next = if ltb 0 m then permute_full after else after in
            IsSqueezing next × (stream next m ≡ stream after m) × (turns_for next m ≤ m))
    turn after zero h = (h, refl, omega arith)
    turn after (suc m) h =
        let positive : ltb 0 (suc m) ≡ true = ground arith in
        let room = permute_full-lt after h in
        let part : ((permute_full after).pos == (permute_full after).rate) ≡ false =
          ground (arith, room) in
        rw positive (
          record { within = omega (arith, room); some = omega (arith, room) },
          stream-permute_full after (suc m) h (omega arith),
          rw (part, turns_for) (omega arith),
        )

    missing :
        (if s.pos == s.rate then n + 2 else n + 1) ≤ suc turns
        → s.pos ≤ s.rate
        → suc n - min (s.rate - s.pos) (suc n) ≤ turns
    missing enough within = ground (arith, enough, within)

-- Squeezing has begun, or the padding is about to begin it.
pub record IsSponge (s : KeccakSponge) : Type 0 where
  pub within : s.pos ≤ s.rate
  pub positive : 0 < s.rate

pad-same : (s : KeccakSponge) → s.squeezing ≡ true → pad s ≡ s
unfolding pad
pad-same s begun = ap (λ b. if b then s else apply_padding s) begun

pad-begun : (s : KeccakSponge) → IsSponge s → IsSqueezing (pad s) × ((pad s).squeezing ≡ true)
unfolding pad apply_padding
pad-begun s h = elim (Bool-cases s.squeezing) [
  | inl begun ↦
      subst (λ (t : KeccakSponge). IsSqueezing t × (t.squeezing ≡ true)) (sym (pad-same s begun))
        (record { within = h.within; some = h.positive }, begun)
  | inr first ↦
      subst (λ (t : KeccakSponge). IsSqueezing t × (t.squeezing ≡ true))
        (sym (ap (λ b. if b then s else apply_padding s) first))
        (record { within = omega arith; some = h.positive }, refl)
]

-- The bound on the turns is enough: the loop puts out the stream.
pub finalize_and_squeeze-stream :
    (s : KeccakSponge) (n : ℕ) → IsSponge s → finalize_and_squeeze s n ≡ stream (pad s) n
unfolding finalize_and_squeeze turns_for
finalize_and_squeeze-stream s n h =
    squeeze_loop-stream (n + 1) (pad s) n (pad-begun s h).0 (few (pad s) n)
  where
    few : (s : KeccakSponge) (n : ℕ) → turns_for s n ≤ n + 1
    few s zero = omega arith
    few s (suc n) = ground arith

stream-append :
    (s : KeccakSponge) (n m : ℕ)
    → stream s (n + m)
      ≡ ((stream s n).0 ++ (stream (stream s n).1 m).0, (stream (stream s n).1 m).1)
unfolding stream
stream-append s zero m = let same : 0 + m ≡ m = omega arith in ap (stream s) same
stream-append s (suc n) m =
    let more : suc n + m ≡ suc (n + m) = omega arith in
    let t = permute_full s in
    ap (stream s) more
    ∙ ap (λ (r : List ℕ × KeccakSponge). (extract_byte t.state t.pos ∷ r.0, r.1))
        (stream-append (moved t t.state (t.pos + 1)) n m)

permuted : (s : KeccakSponge) → s.squeezing ≡ true → (permute_full s).squeezing ≡ true
unfolding permute_full
permuted s begun = elim (Bool-cases (s.pos == s.rate)) [
  | inl full ↦ rw (full, permute_full) begun
  | inr part ↦ rw (part, permute_full) begun
]

stream-kept :
    (s : KeccakSponge) (n : ℕ)
    → IsSqueezing s
    → s.squeezing ≡ true
    → IsSponge (stream s n).1 × ((stream s n).1.squeezing ≡ true) × (length (stream s n).0 ≡ n)
unfolding stream
stream-kept s zero h begun = (record { within = h.within; positive = h.some }, begun, refl)
stream-kept s (suc n) h begun =
    let t = permute_full s in
    let room = permute_full-lt s h in
    let (ok, kept, size) =
      stream-kept (moved t t.state (t.pos + 1)) n
        (record { within = omega (arith, room); some = omega (arith, room) }) (permuted s begun) in
    (ok, kept, ap suc size)

-- From every sponge with a positive rate and a position within it, one call of
-- `finalize_and_squeeze` puts out what two calls for parts of the length put out, the first of
-- them its length, and leaves the same sponge.
pub squeeze-append :
    (s : KeccakSponge) (n m : ℕ)
    → IsSponge s
    → (let first = finalize_and_squeeze s n in
        let second = finalize_and_squeeze first.1 m in
        (length first.0 ≡ n)
        × IsSponge first.1
        × (finalize_and_squeeze s (n + m) ≡ (first.0 ++ second.0, second.1)))
squeeze-append s n m h =
    let (ok, begun) = pad-begun s h in
    let first = finalize_and_squeeze-stream s n h in
    let (kept, still, size) = stream-kept (pad s) n ok begun in
    rw first (
      size,
      kept,
      finalize_and_squeeze-stream s (n + m) h
          ∙ stream-append (pad s) n m
          ∙ ap (λ (r : List ℕ × KeccakSponge). ((stream (pad s) n).0 ++ r.0, r.1))
              (ap (λ t. stream t m) (sym (pad-same (stream (pad s) n).1 still))
                ∙ sym (finalize_and_squeeze-stream (stream (pad s) n).1 m kept)),
    )
