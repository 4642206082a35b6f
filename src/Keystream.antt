-- ===== src/Keystream.antt =====
-- A reference for the stream ciphers of src/aes.rs and src/chacha20.rs, which takes one byte of
-- keystream at a time, and the exclusive-or of byte strings.
use mcu_crypto_asm.Base.{ℕ, suc, ◌<◌, ◌≤◌, ◌≡◌, refl, ap, ap₂, sym, List, [], ◌∷◌, ◌++◌}
use mcu_crypto_asm.Base.{length, get_or, drop, bit_xor, bit_xor_cancel, arith}

-- `data[i] ^= key[i]` for each index that both have
unfoldable pub xor_bytes : List ℕ → List ℕ → List ℕ
xor_bytes [] k = []
xor_bytes (x ∷ d) [] = x ∷ d
xor_bytes (x ∷ d) (y ∷ k) = bit_xor x y ∷ xor_bytes d k

pub length-xor_bytes : (d k : List ℕ) → length (xor_bytes d k) ≡ length d
unfolding xor_bytes
length-xor_bytes [] k = refl
length-xor_bytes (x ∷ d) [] = refl
length-xor_bytes (x ∷ d) (y ∷ k) = ap suc (length-xor_bytes d k)

-- The second pass removes what the first one has added.
pub xor_bytes_cancel : (d k : List ℕ) → xor_bytes (xor_bytes d k) k ≡ d
unfolding xor_bytes
xor_bytes_cancel [] k = refl
xor_bytes_cancel (x ∷ d) [] = refl
xor_bytes_cancel (x ∷ d) (y ∷ k) = ap₂ ◌∷◌ (bit_xor_cancel x y) (xor_bytes_cancel d k)

-- A cipher in the middle of its keystream, and the bytes that it has put out so far.
pub record Run {ℓ} (C : Type ℓ) : Type ℓ where
  pub counter : C
  pub unread : List ℕ
  pub bytes : List ℕ

module _ {ℓ} {C : Type ℓ} (block : C → List ℕ) (next : C → C) where
  -- One byte at a time: a new block of keystream is computed when a byte is needed and none is left.
  unfoldable pub run : C → List ℕ → List ℕ → Run C
  run c u [] = record { counter = c; unread = u; bytes = [] }
  run c (k ∷ u) (x ∷ d) =
      let r = run c u d in
      record { counter = r.counter; unread = r.unread; bytes = bit_xor x k ∷ r.bytes }
  run c [] (x ∷ d) =
      let r = run (next c) (drop 1 (block c)) d in
      record {
        counter = r.counter;
        unread = r.unread;
        bytes = bit_xor x (get_or (block c) 0 0) ∷ r.bytes;
      }

  abbrev pub then_run : Run C → List ℕ → Run C
  then_run r d =
      let s = run r.counter r.unread d in
      record { counter = s.counter; unread = s.unread; bytes = r.bytes ++ s.bytes }

  pub run-append : (c : C) (u a b : List ℕ) → run c u (a ++ b) ≡ then_run (run c u a) b
  unfolding run
  run-append c u [] b = refl
  run-append c (k ∷ u) (x ∷ a) b = rw (run-append c u a b)
  run-append c [] (x ∷ a) b = rw (run-append (next c) (drop 1 (block c)) a b)

  -- No new block is needed while enough of the last one is unread.
  pub run-within :
      (c : C) (u d : List ℕ)
      → length d ≤ length u
      → run c u d ≡ record { counter = c; unread = drop (length d) u; bytes = xor_bytes d u }
  unfolding run xor_bytes
  run-within c u [] h = refl
  run-within c [] (x ∷ d) h = absurd (omega arith)
  run-within c (k ∷ u) (x ∷ d) h = rw (run-within c u d (omega arith))

  -- A new block is taken when a byte is needed.
  pub run-fresh :
      (c : C) (x : ℕ) (d : List ℕ)
      → 0 < length (block c)
      → run c [] (x ∷ d) ≡ run (next c) (block c) (x ∷ d)
  unfolding run
  run-fresh c x d h = split (block c) refl h
    where
      split : (b : List ℕ) → b ≡ block c → 0 < length b → run c [] (x ∷ d) ≡ run (next c) b (x ∷ d)
      split [] e k = absurd (omega arith)
      split (y ∷ b) e k = rw (sym e)

  -- A second run from the same state gives the data back.
  pub run_cancel : (c : C) (u d : List ℕ) → (run c u ((run c u d).bytes)).bytes ≡ d
  unfolding run
  run_cancel c u [] = refl
  run_cancel c (k ∷ u) (x ∷ d) = ap₂ ◌∷◌ (bit_xor_cancel x k) (run_cancel c u d)
  run_cancel c [] (x ∷ d) = ap₂ ◌∷◌ (bit_xor_cancel x _) (run_cancel (next c) (drop 1 (block c)) d)

  pub length-run : (c : C) (u d : List ℕ) → length (run c u d).bytes ≡ length d
  unfolding run
  length-run c u [] = refl
  length-run c (k ∷ u) (x ∷ d) = ap suc (length-run c u d)
  length-run c [] (x ∷ d) = ap suc (length-run (next c) (drop 1 (block c)) d)
