-- ===== src/Aes/Ctr/Stream.antt =====
-- `AesCtr` against the reference that takes a byte of keystream at a time.
use mcu_crypto_asm.Base.{
  ℕ, zero, suc, ◌+◌, ◌-◌, ◌*◌, ◌/◌, ◌<◌, ◌≤◌, ◌≡◌, refl, ap, sym, ◌∙◌, List, [], ◌∷◌, ◌++◌, min,
  arith,
}
use mcu_crypto_asm.Base.{false, Bool-cases, inl, inr, ◌==◌, ==_iff, leb}
use mcu_crypto_asm.Base.{
  length, take, drop, length-take, length-drop, drop_all, drop-drop, take-append-drop,
}
use mcu_crypto_asm.Keystream.{xor_bytes, Run, run, then_run, run-append, run-within, run-fresh}
use mcu_crypto_asm.Aes.{AesEncrypt, inc128, ctr_apply}
use mcu_crypto_asm.Aes.Counter.{stream, result, ctr_apply-stream, ctr_blocks-stream}
use mcu_crypto_asm.Aes.Ctr.{AesCtr, Turn, refill, prepare, apply_loop, apply_keystream}

-- A block of keystream, and a position in it.
pub record IsCtr (s : AesCtr) : Type 0 where
  pub size : length s.keystream ≡ 16
  pub within : s.pos ≤ 16

abbrev pub unread : AesCtr → List ℕ
unread s = drop s.pos s.keystream

module _ (aes : AesEncrypt) where
  abbrev pub reference : AesCtr → List ℕ → Run (List ℕ)
  reference s buf = run aes.encrypt_block inc128 s.counter (unread s) buf

  abbrev seen : AesCtr → List ℕ → Run (List ℕ)
  seen s out = record { counter = s.counter; unread = unread s; bytes = out }

  -- The state after the bytes that a turn has put out, and a byte to read if data is left.
  record IsTurn (s : AesCtr) (buf : List ℕ) (t : Turn) : Type 0 where
    ctr : IsCtr t.state
    ready : 0 < length t.rest → t.state.pos < 16
    shorter : length t.rest ≤ length buf
    follows : reference s buf ≡ then_run aes.encrypt_block inc128 (seen t.state t.out) t.rest

  whole_blocks :
      (n : ℕ) (c buf : List ℕ)
      → length buf ≡ 16 * n
      → stream aes inc128 c buf ≡ result aes inc128 (ctr_apply aes inc128 c buf) []
  whole_blocks n c buf h =
      let (u, e) = ctr_apply-stream aes inc128 c buf in
      let none : u ≡ [] =
        ap (λ (r : Run (List ℕ)). r.unread) (sym e ∙ ctr_blocks-stream aes inc128 n c buf h) in
      e ∙ ap (result aes inc128 (ctr_apply aes inc128 c buf)) none

  refill-IsTurn :
      (s s1 : AesCtr) (buf out rest : List ℕ)
      → IsCtr s1
      → s1.pos ≡ 16
      → length rest ≤ length buf
      → reference s buf ≡ then_run aes.encrypt_block inc128 (seen s1 out) rest
      → IsTurn s buf (refill aes s1 out rest)
  unfolding refill
  refill-IsTurn s s1 buf out [] h at k e = record {
    ctr = h;
    ready = λ p. absurd (omega arith);
    shorter = k;
    follows = e;
  }
  refill-IsTurn s s1 buf out (x ∷ rest) h at k e =
      let n = aes.length-encrypt_block s1.counter in
      let none : unread s1 ≡ [] = drop_all s1.pos s1.keystream (omega (arith, h.size)) in
      record {
        ctr = record { size = n; within = omega arith };
        ready = λ p. omega arith;
        shorter = k;
        follows =
            e
            ∙ ap
                (λ u.
                  then_run aes.encrypt_block inc128
                    (record { counter = s1.counter; unread = u; bytes = out }) (x ∷ rest))
                none
            ∙ rw (run-fresh aes.encrypt_block inc128 s1.counter x rest (omega arith));
      }

  prepare-IsTurn : (s : AesCtr) (buf : List ℕ) → IsCtr s → IsTurn s buf (prepare aes s buf)
  unfolding prepare run
  prepare-IsTurn s buf h = elim (Bool-cases (s.pos == 16)) [
    | inr part ↦
        rw part (record { ctr = h; ready = λ p. below part; shorter = omega arith; follows = refl })
    | inl full ↦
        let at : s.pos ≡ 16 = (==_iff s.pos 16).0 full in
        let none : unread s ≡ [] = drop_all s.pos s.keystream (omega (arith, h.size)) in
        elim (Bool-cases (leb 32 (length buf))) [
          | inl long ↦
              let blocks : ℕ = length buf / 16 in
              let bulk : ℕ = blocks * 16 in
              let done = ctr_apply aes inc128 s.counter (take bulk buf) in
              let s1 : AesCtr = record { counter = done.0; keystream = s.keystream; pos = s.pos } in
              rw (full, long)
                (refill-IsTurn s s1 buf done.1 (drop bulk buf)
                  (record { size = h.size; within = h.within }) at
                  (omega (arith, length-drop bulk buf))
                  (ap (λ u. run aes.encrypt_block inc128 s.counter u buf) none
                    ∙ ap (stream aes inc128 s.counter) (sym (take-append-drop bulk buf))
                    ∙ run-append aes.encrypt_block inc128 s.counter [] (take bulk buf)
                        (drop bulk buf)
                    ∙ ap (λ r. then_run aes.encrypt_block inc128 r (drop bulk buf))
                        (whole_blocks blocks s.counter (take bulk buf)
                            (length-take bulk buf ∙ omega arith)
                          ∙ ap (result aes inc128 done) (sym none))))
          | inr short ↦ rw (full, short) (refill-IsTurn s s buf [] buf h at (omega arith) refl)
        ]
  ]
    where
      below : (s.pos == 16) ≡ false → s.pos < 16
      below part = ground (arith, h.within)

  -- What `apply_keystream` promises: the bytes, the counter and the unread keystream of the reference.
  pub record Follows (s : AesCtr) (buf : List ℕ) (r : AesCtr × List ℕ) : Type 0 where
    pub ctr : IsCtr r.0
    pub same : reference s buf ≡ seen r.0 r.1

  advance : AesCtr → ℕ → AesCtr
  advance s n = record { counter = s.counter; keystream = s.keystream; pos = s.pos + n }

  -- `n` bytes of the block at hand.
  read-run :
      (s : AesCtr) (rest : List ℕ) (n : ℕ)
      → IsCtr s
      → n ≤ 16 - s.pos
      → n ≤ length rest
      → reference s rest
        ≡ then_run aes.encrypt_block inc128
            (seen (advance s n) (xor_bytes (take n rest) (unread s)))
            (drop n rest)
  unfolding advance
  read-run s rest n h k l =
      let size : length (take n rest) ≡ n = length-take n rest ∙ omega arith in
      ap (reference s) (sym (take-append-drop n rest))
      ∙ run-append aes.encrypt_block inc128 s.counter (unread s) (take n rest) (drop n rest)
      ∙ ap (λ r. then_run aes.encrypt_block inc128 r (drop n rest))
          (run-within aes.encrypt_block inc128 s.counter (unread s) (take n rest)
              (omega (arith, size, length-drop s.pos s.keystream, h.size))
            ∙ ap
                (λ u. record {
                  counter = s.counter;
                  unread = u;
                  bytes = xor_bytes (take n rest) (unread s);
                })
                (ap (λ m. drop m (unread s)) size ∙ drop-drop s.pos n s.keystream))

  apply_loop-Follows :
      (fuel : ℕ) (s : AesCtr) (buf : List ℕ)
      → length buf ≤ fuel
      → IsCtr s
      → Follows s buf (apply_loop aes fuel s buf)
  unfolding apply_loop run advance
  apply_loop-Follows zero s [] k h = record { ctr = h; same = refl }
  apply_loop-Follows zero s (x ∷ buf) k h = absurd (omega arith)
  apply_loop-Follows (suc fuel) s [] k h = record { ctr = h; same = refl }
  apply_loop-Follows (suc fuel) s (x ∷ buf) k h =
      let turn = prepare aes s (x ∷ buf) in
      let t = prepare-IsTurn s (x ∷ buf) h in
      let rest = turn.rest in
      let n = min (16 - turn.state.pos) (length rest) in
      let next =
        apply_loop-Follows fuel (advance turn.state n) (drop n rest)
          (grind (arith, k, t.shorter, t.ready, length-drop n rest))
          (record { size = t.ctr.size; within = omega (arith, t.ctr.within) }) in
      record {
        ctr = next.ctr;
        same =
            t.follows
            ∙ rw (read-run turn.state rest n t.ctr (omega arith) (omega arith), next.same);
      }

  -- From every state of `AesCtr`, `apply_keystream`, with its bulk path, puts out what the
  -- byte-at-a-time reference does and stops at its counter and unread keystream.
  pub apply_keystream-Follows :
      (s : AesCtr) (buf : List ℕ) → IsCtr s → Follows s buf (apply_keystream aes s buf)
  unfolding apply_keystream
  apply_keystream-Follows s buf h = apply_loop-Follows (length buf) s buf (omega arith) h

  -- The output of `AesCtr` for a message does not depend on how it is cut into two pieces.
  pub apply_keystream-append :
      (s : AesCtr) (a b : List ℕ)
      → IsCtr s
      → (apply_keystream aes s (a ++ b)).1
        ≡ (apply_keystream aes s a).1 ++ (apply_keystream aes (apply_keystream aes s a).0 b).1
  apply_keystream-append s a b h =
      let whole = apply_keystream-Follows s (a ++ b) h in
      let first = apply_keystream-Follows s a h in
      let second = apply_keystream-Follows (apply_keystream aes s a).0 b first.ctr in
      ap (λ (r : Run (List ℕ)). r.bytes)
        (sym whole.same
          ∙ run-append aes.encrypt_block inc128 s.counter (unread s) a b
          ∙ ap (λ r. then_run aes.encrypt_block inc128 r b) first.same)
      ∙ ap (λ (r : Run (List ℕ)). (apply_keystream aes s a).1 ++ r.bytes) second.same
