-- ===== src/Keccak/Feed.antt =====
-- What `absorb` of src/keccak.rs takes, against a reference that takes a byte at a time.
use mcu_crypto_asm.Base.{
  ℕ, zero, suc, ◌+◌, ◌-◌, ◌<◌, ◌≤◌, ◌≡◌, refl, ap, sym, ◌∙◌, List, [], ◌∷◌, ◌++◌, min, arith,
  Bool-cases, inl, inr, false, if◌then◌else◌, ◌==◌,
}
use mcu_crypto_asm.Base.{length, take, drop, length-take, length-drop, take-append-drop, some, none}
use mcu_crypto_asm.Keccak.{
  KeccakSponge, moved, add_byte, add_bytes, permute_full, absorb_loop, absorb,
}

-- One byte, and the permutation when the rate is full.
unfoldable pub feed_byte : KeccakSponge → ℕ → KeccakSponge
feed_byte s x = permute_full (moved s (add_byte s.state x s.pos) (s.pos + 1))

unfoldable pub feed : KeccakSponge → List ℕ → KeccakSponge
feed s [] = s
feed s (x ∷ input) = feed (feed_byte s x) input

-- The sponge can take a byte.
pub record IsAbsorbing (s : KeccakSponge) : Type 0 where
  pub room : s.pos < s.rate
  pub taking : s.squeezing ≡ false

permute_full-IsAbsorbing :
    (s : KeccakSponge)
    → s.pos ≤ s.rate
    → 0 < s.rate
    → s.squeezing ≡ false
    → IsAbsorbing (permute_full s)
unfolding permute_full
permute_full-IsAbsorbing s within positive h = elim (Bool-cases (s.pos == s.rate)) [
  | inl full ↦ rw (full, permute_full) (record { room = positive; taking = h })
  | inr part ↦ rw (part, permute_full) (record { room = ground (arith, within, part); taking = h })
]

permute_full-part : (s : KeccakSponge) → s.pos < s.rate → permute_full s ≡ s
unfolding permute_full
permute_full-part s room =
    let part : (s.pos == s.rate) ≡ false = ground arith in rw (part, permute_full) refl

pub feed-append : (s : KeccakSponge) (a b : List ℕ) → feed s (a ++ b) ≡ feed (feed s a) b
unfolding feed
feed-append s [] b = refl
feed-append s (x ∷ a) b = feed-append (feed_byte s x) a b

-- Bytes that fit the rate are taken at once.
feed-chunk :
    (s : KeccakSponge) (x : ℕ) (d : List ℕ)
    → s.pos + length (x ∷ d) ≤ s.rate
    → feed s (x ∷ d)
      ≡ permute_full (moved s (add_bytes s.state (x ∷ d) s.pos) (s.pos + length (x ∷ d)))
unfolding feed feed_byte add_bytes
feed-chunk s x [] fits = refl
feed-chunk s x (y ∷ d) fits =
    let one = moved s (add_byte s.state x s.pos) (s.pos + 1) in
    let count : s.pos + 1 + length (y ∷ d) ≡ s.pos + length (x ∷ y ∷ d) = omega arith in
    ap (λ t. feed t (y ∷ d)) (permute_full-part one (omega (arith, fits)))
    ∙ feed-chunk one y d (omega (arith, fits))
    ∙ ap (λ k. permute_full (moved s (add_bytes s.state (x ∷ y ∷ d) s.pos) k)) count

pub feed_byte-IsAbsorbing : (s : KeccakSponge) (x : ℕ) → IsAbsorbing s → IsAbsorbing (feed_byte s x)
unfolding feed_byte
feed_byte-IsAbsorbing s x h =
    permute_full-IsAbsorbing (moved s (add_byte s.state x s.pos) (s.pos + 1))
      (omega (arith, h.room)) (omega (arith, h.room)) h.taking

pub feed-IsAbsorbing : (s : KeccakSponge) (d : List ℕ) → IsAbsorbing s → IsAbsorbing (feed s d)
unfolding feed
feed-IsAbsorbing s [] h = h
feed-IsAbsorbing s (x ∷ d) h = feed-IsAbsorbing (feed_byte s x) d (feed_byte-IsAbsorbing s x h)

-- A turn of the loop takes a nonempty chunk.
pub absorb_loop-feed :
    (n : ℕ) (s : KeccakSponge) (input : List ℕ)
    → IsAbsorbing s
    → length input ≤ n
    → absorb_loop n s input ≡ feed s input
unfolding absorb_loop feed
absorb_loop-feed zero s [] h enough = refl
absorb_loop-feed zero s (x ∷ input) h enough = absurd (omega arith)
absorb_loop-feed (suc n) s [] h enough = refl
absorb_loop-feed (suc n) s (x ∷ input) h enough =
    let all = x ∷ input in
    let k = min (s.rate - s.pos) (length all) in
    let size : length (take k all) ≡ k = omega (arith, length-take k all) in
    let turn : permute_full (moved s (add_bytes s.state (take k all) s.pos) (s.pos + k))
        ≡ feed s (take k all) =
      chunk (take k all) k size (omega (arith, h.room)) (omega (arith, h.room)) in
    ap (λ t. absorb_loop n t (drop k all)) turn
    ∙ absorb_loop-feed n (feed s (take k all)) (drop k all) (feed-IsAbsorbing s (take k all) h)
        (omega (arith, length-drop k all, h.room, enough))
    ∙ sym (feed-append s (take k all) (drop k all))
    ∙ ap (feed s) (take-append-drop k all)
  where
    chunk :
        (d : List ℕ) (k : ℕ)
        → length d ≡ k
        → 0 < k
        → s.pos + k ≤ s.rate
        → permute_full (moved s (add_bytes s.state d s.pos) (s.pos + k)) ≡ feed s d
    chunk [] k e positive fits = absurd (omega arith)
    chunk (y ∷ d) k e positive fits =
        ap (λ k. permute_full (moved s (add_bytes s.state (y ∷ d) s.pos) k)) (omega (arith, e))
        ∙ sym (feed-chunk s y d (omega (arith, e, fits)))

-- A sponge that has not begun to squeeze, with room below its rate, takes any bytes: `absorb`
-- leaves what taking one byte at a time leaves, again with room below its rate.
pub absorb-feed :
    (s : KeccakSponge) (input : List ℕ)
    → IsAbsorbing s
    → (absorb s input ≡ some (feed s input)) × IsAbsorbing (feed s input)
unfolding absorb
absorb-feed s input h = (
  ap (λ b. if b then none else some (absorb_loop (length input) s input)) h.taking
      ∙ ap some (absorb_loop-feed (length input) s input h (omega arith)),
  feed-IsAbsorbing s input h,
)
