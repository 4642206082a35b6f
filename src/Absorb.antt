-- ===== src/Absorb.antt =====
-- A reference for the buffers of the hash functions and authenticators: bytes are taken one at a time,
-- and a block is compressed as soon as it is full.
use mcu_crypto_asm.Base.{
  ℕ, zero, suc, ◌+◌, ◌-◌, ◌*◌, ◌/◌, ◌<◌, ◌≤◌, ◌≡◌, refl, ap, sym, ◌∙◌, ◌⊎◌, min, ltb, ap₂,
  take-take, drop-take, List, [], ◌∷◌, ◌++◌, append_assoc, append-nil,
}
use mcu_crypto_asm.Base.{
  length, take, drop, length-append, length-take, length-drop, take-append-drop, drop_all, arith,
}
use mcu_crypto_asm.Base.{true, false, Bool-cases, inl, inr, ◌==◌, ==_iff, if◌then◌else◌}
use native.Mathlib.Nat.{div-mul-le_self, div-add-mod', mod-lt, zero-div}

-- The state, and the bytes that do not fill a block yet.
pub record Partial {ℓ} (S : Type ℓ) : Type ℓ where
  pub state : S
  pub pending : List ℕ

-- The pieces of a message, one after the other.
unfoldable pub joined : List (List ℕ) → List ℕ
joined [] = []
joined (d ∷ pieces) = d ++ joined pieces

module _ {ℓ} {S : Type ℓ} (compress : S → List ℕ → S) (n : ℕ) where
  -- The bytes at hand, compressed if they fill a block.
  unfoldable pub settle : S → List ℕ → Partial S
  settle s p =
      if length p == n
      then record { state = compress s p; pending = [] }
      else record { state = s; pending = p }

  unfoldable pub absorb : S → List ℕ → List ℕ → Partial S
  absorb s p [] = record { state = s; pending = p }
  absorb s p (x ∷ d) = let t = settle s (p ++ (x ∷ [])) in absorb t.state t.pending d

  -- As many whole blocks as the first argument says.
  unfoldable pub blocks : ℕ → S → List ℕ → S
  blocks zero s d = s
  blocks (suc k) s d = blocks k (compress s (take n d)) (drop n d)

  pub absorb-append :
      (s : S) (p a b : List ℕ)
      → absorb s p (a ++ b) ≡ absorb (absorb s p a).state (absorb s p a).pending b
  unfolding absorb
  absorb-append s p [] b = refl
  absorb-append s p (x ∷ a) b =
      absorb-append (settle s (p ++ (x ∷ []))).state (settle s (p ++ (x ∷ []))).pending a b

  pub settle-part :
      (s : S) (p : List ℕ) → length p < n → settle s p ≡ record { state = s; pending = p }
  unfolding settle
  settle-part s p h = let test : (length p == n) ≡ false = ground arith in rw test

  pub settle-full :
      (s : S) (p : List ℕ)
      → length p ≡ n
      → settle s p ≡ record { state = compress s p; pending = [] }
  unfolding settle
  settle-full s p h = rw ((==_iff (length p) n).1 h)

  -- Bytes that fit a started block.
  pub absorb-settle :
      (s : S) (p d : List ℕ)
      → length p < n
      → length p + length d ≤ n
      → absorb s p d ≡ settle s (p ++ d)
  unfolding absorb
  absorb-settle s p [] h k = sym (settle-part s p h) ∙ ap (settle s) (sym (append-nil p))
  absorb-settle s p (x ∷ []) h k = refl
  absorb-settle s p (x ∷ y ∷ d) h k =
      let size : length (p ++ (x ∷ [])) ≡ length p + 1 = length-append p (x ∷ []) in
      ap (λ (t : Partial S). absorb t.state t.pending (y ∷ d))
        (settle-part s (p ++ (x ∷ [])) (omega (arith, size)))
      ∙ absorb-settle s (p ++ (x ∷ [])) (y ∷ d) (omega (arith, size)) (omega (arith, size))
      ∙ ap (settle s) (append_assoc p (x ∷ []) (y ∷ d))

  -- Whole blocks.
  pub absorb-blocks :
      (k : ℕ) (s : S) (d : List ℕ)
      → 0 < n
      → length d ≡ k * n
      → absorb s [] d ≡ record { state = blocks k s d; pending = [] }
  unfolding absorb blocks
  absorb-blocks zero s [] pos h = refl
  absorb-blocks zero s (x ∷ d) pos h = absurd (omega arith)
  absorb-blocks (suc k) s d pos h =
      let size : length (take n d) ≡ n = length-take n d ∙ omega arith in
      ap (absorb s []) (sym (take-append-drop n d))
      ∙ absorb-append s [] (take n d) (drop n d)
      ∙ ap (λ (t : Partial S). absorb t.state t.pending (drop n d))
          (absorb-settle s [] (take n d) pos (omega arith) ∙ settle-full s (take n d) size)
      ∙ absorb-blocks k (compress s (take n d)) (drop n d) pos (length-drop n d ∙ omega arith)

  pub settle-pending-lt :
      (s : S) (p : List ℕ) → 0 < n → length p ≤ n → length (settle s p).pending < n
  unfolding settle
  settle-pending-lt s p pos h = elim (Bool-cases (length p == n)) [
    | inl full ↦ rw full pos
    | inr part ↦ rw part (below part)
  ]
    where
      below : (length p == n) ≡ false → length p < n
      below part = ground (arith, h)

  abbrev pub rest_of : Partial S → List ℕ → Partial S
  rest_of t d = absorb t.state t.pending d

  -- First the bytes that fit the started block.
  pub absorb-split :
      (s : S) (p d : List ℕ) (taken : ℕ)
      → length p < n
      → length p + taken ≤ n
      → absorb s p d ≡ rest_of (settle s (p ++ take taken d)) (drop taken d)
  absorb-split s p d taken h room =
      let size : length (take taken d) ≤ taken = omega (arith, length-take taken d) in
      ap (absorb s p) (sym (take-append-drop taken d))
      ∙ absorb-append s p (take taken d) (drop taken d)
      ∙ ap (λ t. rest_of t (drop taken d)) (absorb-settle s p (take taken d) h (omega arith))

  -- How many bytes the code takes for a started block.
  abbrev pub wanted : List ℕ → List ℕ → ℕ
  wanted p d = if ltb 0 (length p) then min (n - length p) (length d) else 0

  -- After these the block is full, or no byte is left.
  pub one_empty :
      (s : S) (p d : List ℕ)
      → length p < n
      → ((settle s (p ++ take (wanted p d) d)).pending ≡ []) ⊎ (drop (wanted p d) d ≡ [])
  one_empty s [] d h = inl (ap (λ (t : Partial S). t.pending) (settle-part s [] h))
  one_empty s (x ∷ p) d h =
      let k = min (n - length (x ∷ p)) (length d) in
      let started : ltb 0 (length (x ∷ p)) ≡ true = ground arith in
      rw started (elim (Bool-cases (length (x ∷ p ++ take k d) == n)) [
        | inl full ↦ inl (
            ap (λ (t : Partial S). t.pending)
              (settle-full s (x ∷ p ++ take k d) ((==_iff (length (x ∷ p ++ take k d)) n).0 full)))
        | inr part ↦ inr (
            drop_all k d (
              few (length (x ∷ p ++ take k d))
                (length-append (x ∷ p) (take k d) ∙ ap (λ m. length (x ∷ p) + m) (length-take k d))
                part))
      ])
    where
      few :
          (total : ℕ)
          → total ≡ length (x ∷ p) + min (min (n - length (x ∷ p)) (length d)) (length d)
          → (total == n) ≡ false
          → length d ≤ min (n - length (x ∷ p)) (length d)
      few total e part = ground (arith, h)

  -- Then the whole blocks, and what is left.
  pub absorb-bulk :
      (s : S) (p d : List ℕ)
      → 0 < n
      → (p ≡ []) ⊎ (d ≡ [])
      → (let k = length d / n in
          absorb s p d
          ≡ record { state = blocks k s (take (k * n) d); pending = p ++ drop (k * n) d })
  unfolding absorb blocks
  absorb-bulk s p d pos (inl e) =
      let k = length d / n in
      let size : length (take (k * n) d) ≡ k * n =
        length-take (k * n) d ∙ omega (arith, div-mul-le_self (length d) n) in
      let rest : length (drop (k * n) d) < n =
        omega (arith, length-drop (k * n) d, div-add-mod' (length d) n, mod-lt (length d) pos) in
      rw e (
        ap (absorb s []) (sym (take-append-drop (k * n) d))
        ∙ absorb-append s [] (take (k * n) d) (drop (k * n) d)
        ∙ ap (λ t. rest_of t (drop (k * n) d)) (absorb-blocks k s (take (k * n) d) pos size)
        ∙ absorb-settle (blocks k s (take (k * n) d)) [] (drop (k * n) d) pos (omega arith)
        ∙ settle-part (blocks k s (take (k * n) d)) (drop (k * n) d) rest)
  absorb-bulk s p d pos (inr e) =
      let none : 0 * n ≡ 0 = omega arith in rw (e, zero-div n, none, append-nil p)

  pub blocks-take : (k : ℕ) (s : S) (d : List ℕ) → blocks k s (take (k * n) d) ≡ blocks k s d
  unfolding blocks
  blocks-take zero s d = refl
  blocks-take (suc k) s d =
      let split : suc k * n ≡ n + k * n = omega arith in
      ap (λ m. blocks k (compress s (take n (take m d))) (drop n (take m d))) split
      ∙ ap₂ (λ x y. blocks k (compress s x) y) (take-take n (k * n) d) (drop-take n (k * n) d)
      ∙ blocks-take k (compress s (take n d)) (drop n d)
