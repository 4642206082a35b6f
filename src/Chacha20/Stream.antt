-- ===== src/Chacha20/Stream.antt =====
-- ChaCha20 against the reference that takes a byte of keystream at a time.
use mcu_crypto_asm.Base.{
  ℕ, zero, suc, ◌+◌, ◌-◌, ◌<◌, ◌≤◌, ◌≡◌, refl, ap, sym, ◌∙◌, List, [], ◌∷◌, min, arith,
}
use mcu_crypto_asm.Base.{false, Bool-cases, inl, inr, ◌==◌, ==_iff}
use mcu_crypto_asm.Base.{
  length, take, drop, length-take, length-drop, drop_all, drop-drop, take-append-drop,
}
use mcu_crypto_asm.Keystream.{
  xor_bytes, Run, run, then_run, run-append, run-within, run-fresh, run_cancel,
}
use mcu_crypto_asm.Chacha20.{
  ChaCha20, new, chacha20_block, write_out, to_le32, next_counter, refresh, apply_loop,
  apply_keystream, chacha20_xor,
}

-- A block of keystream, and an offset in it.
pub record IsCipher (s : ChaCha20) : Type 0 where
  pub size : length s.buffer ≡ 64
  pub within : s.offset ≤ 64

length-chacha20_block : (state : List ℕ) → length (chacha20_block state) ≡ 64
unfolding chacha20_block write_out to_le32
length-chacha20_block state = refl

abbrev pub unread : ChaCha20 → List ℕ
unread s = drop s.offset s.buffer

abbrev pub reference : ChaCha20 → List ℕ → Run (List ℕ)
reference s buf = run chacha20_block next_counter s.state (unread s) buf

abbrev pub seen : ChaCha20 → List ℕ → Run (List ℕ)
seen s out = record { counter = s.state; unread = unread s; bytes = out }

abbrev after_run : Run (List ℕ) → List ℕ → Run (List ℕ)
after_run = then_run chacha20_block next_counter

-- With a byte to come, the refreshed state has a byte to read and continues as the state did.
record IsRefreshed (s s1 : ChaCha20) (x : ℕ) (buf : List ℕ) : Type 0 where
  cipher : IsCipher s1
  ready : s1.offset < 64
  same : reference s (x ∷ buf) ≡ reference s1 (x ∷ buf)

refresh_lem : (s : ChaCha20) (x : ℕ) (buf : List ℕ) → IsCipher s → IsRefreshed s (refresh s) x buf
unfolding refresh
refresh_lem s x buf h = elim (Bool-cases (s.offset == 64)) [
  | inl full ↦
      let at : s.offset ≡ 64 = (==_iff s.offset 64).0 full in
      let none : unread s ≡ [] = drop_all s.offset s.buffer (omega (arith, h.size)) in
      let n = length-chacha20_block s.state in
      rw full (record {
        cipher = record { size = n; within = omega arith };
        ready = omega arith;
        same =
            ap (λ u. run chacha20_block next_counter s.state u (x ∷ buf)) none
            ∙ run-fresh chacha20_block next_counter s.state x buf (omega (arith, n));
      })
  | inr part ↦ rw part (record { cipher = h; ready = below part; same = refl })
]
  where
    below : (s.offset == 64) ≡ false → s.offset < 64
    below part = ground (arith, h.within)

advance : ChaCha20 → ℕ → ChaCha20
advance s n = record { state = s.state; buffer = s.buffer; offset = s.offset + n }

-- `n` bytes of the block at hand.
read-run :
    (s : ChaCha20) (rest : List ℕ) (n : ℕ)
    → IsCipher s
    → n ≤ 64 - s.offset
    → n ≤ length rest
    → reference s rest
      ≡ after_run (seen (advance s n) (xor_bytes (take n rest) (unread s))) (drop n rest)
unfolding advance
read-run s rest n h k l =
    let size : length (take n rest) ≡ n = length-take n rest ∙ omega arith in
    let fits : length (take n rest) ≤ length (unread s) =
      omega (arith, size, length-drop s.offset s.buffer, h.size) in
    ap (reference s) (sym (take-append-drop n rest))
    ∙ run-append chacha20_block next_counter s.state (unread s) (take n rest) (drop n rest)
    ∙ ap (λ r. after_run r (drop n rest))
        (run-within chacha20_block next_counter s.state (unread s) (take n rest) fits
          ∙ ap
              (λ u. record {
                counter = s.state;
                unread = u;
                bytes = xor_bytes (take n rest) (unread s);
              })
              (ap (λ m. drop m (unread s)) size ∙ drop-drop s.offset n s.buffer))

-- The bytes, the state and the unread keystream are those of the reference.
pub record Follows (s : ChaCha20) (buf : List ℕ) (r : ChaCha20 × List ℕ) : Type 0 where
  pub cipher : IsCipher r.0
  pub same : reference s buf ≡ seen r.0 r.1

apply_loop-Follows :
    (fuel : ℕ) (s : ChaCha20) (buf : List ℕ)
    → length buf ≤ fuel
    → IsCipher s
    → Follows s buf (apply_loop fuel s buf)
unfolding apply_loop run advance
apply_loop-Follows zero s [] k h = record { cipher = h; same = refl }
apply_loop-Follows zero s (x ∷ buf) k h = absurd (omega arith)
apply_loop-Follows (suc fuel) s [] k h = record { cipher = h; same = refl }
apply_loop-Follows (suc fuel) s (x ∷ buf) k h =
    let s1 = refresh s in
    let t = refresh_lem s x buf h in
    let n = min (64 - s1.offset) (length (x ∷ buf)) in
    let next =
      apply_loop-Follows fuel (advance s1 n) (drop n (x ∷ buf))
        (omega (arith, k, t.ready, length-drop n (x ∷ buf)))
        (record { size = t.cipher.size; within = omega (arith, t.cipher.within) }) in
    record {
      cipher = next.cipher;
      same = t.same ∙ rw (read-run s1 (x ∷ buf) n t.cipher (omega arith) (omega arith), next.same);
    }

-- From every state of `ChaCha20`, `apply_keystream` puts out what the byte-at-a-time reference
-- does and stops where it does.
pub chacha20-Follows :
    (s : ChaCha20) (buf : List ℕ) → IsCipher s → Follows s buf (apply_keystream s buf)
unfolding apply_keystream
chacha20-Follows s buf h = apply_loop-Follows (length buf) s buf (omega arith) h

new-IsCipher : (key nonce : List ℕ) (counter : ℕ) → IsCipher (new key nonce counter)
unfolding new
new-IsCipher key nonce counter = record { size = refl; within = omega arith }

-- For every key, nonce and counter, `chacha20_xor` of its own output gives the data back.
pub chacha20_xor_cancel :
    (key nonce : List ℕ) (counter : ℕ) (buf : List ℕ)
    → chacha20_xor key nonce counter (chacha20_xor key nonce counter buf) ≡ buf
unfolding chacha20_xor
chacha20_xor_cancel key nonce counter buf =
    let s = new key nonce counter in
    let h = new-IsCipher key nonce counter in
    let out = (apply_keystream s buf).1 in
    ap (λ (r : Run (List ℕ)). r.bytes) (sym (chacha20-Follows s out h).same)
    ∙ ap (λ (r : Run (List ℕ)). (reference s r.bytes).bytes) (sym (chacha20-Follows s buf h).same)
    ∙ run_cancel chacha20_block next_counter s.state (unread s) buf
