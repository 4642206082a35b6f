-- ===== src/Sha512/Core/Padding.antt =====
-- The updates of `Sha512Core`, and how src/sha512.rs ends a message.
use mcu_crypto_asm.Base.{
  ℕ, zero, suc, ◌+◌, ◌-◌, ◌*◌, ◌/◌, ◌≤◌, ◌≡◌, refl, ap, sym, ◌∙◌, inl, inr, List, [], ◌∷◌, ◌++◌,
  ltb, min,
}
use mcu_crypto_asm.Base.{
  length, take, drop, length-append, length-take, length-drop, arith, replicate, Bool-cases,
  if◌then◌else◌, ◌==◌,
}
use mcu_crypto_asm.Absorb.{Partial, settle, absorb, blocks, blocks-take}
use mcu_crypto_asm.Sha512.{
  Sha512, compress_block, fill_buffer, compress_bulk, keep_rest, count_bytes, update, with_state,
}
use mcu_crypto_asm.Sha512.Core.{chunks_loop, core_update, pad_loop}
use mcu_crypto_asm.Sha512.Stream.{IsStream, view, one_block, bulk_state, update-absorb, length-held}

chunks_loop-blocks :
    (k : ℕ) (h : Sha512) (msg : List ℕ)
    → k * 128 ≤ length msg
    → chunks_loop k h msg ≡ with_state h (blocks compress_block 128 k h.state msg)
unfolding chunks_loop blocks
chunks_loop-blocks zero h msg n = refl
chunks_loop-blocks (suc k) h msg n =
    let size : length (take 128 msg) ≡ 128 = omega (arith, length-take 128 msg, n) in
    ap (λ s. chunks_loop k (with_state h s) (drop 128 msg)) (one_block h.state (take 128 msg) size)
    ∙ chunks_loop-blocks k (with_state h (compress_block h.state (take 128 msg))) (drop 128 msg)
        (omega (arith, length-drop 128 msg, n))

chunks_loop-bulk :
    (h : Sha512) (msg : List ℕ) → chunks_loop (length msg / 128) h msg ≡ compress_bulk h msg
chunks_loop-bulk h msg =
    let k = length msg / 128 in
    chunks_loop-blocks k h msg (omega arith)
    ∙ ap (with_state h) (sym (blocks-take compress_block 128 k h.state msg))
    ∙ sym (bulk_state h msg (omega (arith, length-take (k * 128) msg)))

pub core_update-eq : (h : Sha512) (msg : List ℕ) → core_update h msg ≡ update h msg
unfolding core_update update
core_update-eq h msg =
    let counted = count_bytes h (length msg) in
    let n = if ltb 0 counted.buf_len then min (128 - counted.buf_len) (length msg) else 0 in
    let next = if ltb 0 counted.buf_len then fill_buffer counted (take n msg) else counted in
    ap (λ t. keep_rest t (drop (length (drop n msg) / 128 * 128) (drop n msg)))
      (chunks_loop-bulk next (drop n msg))

-- How many zeros bring the buffer to 112 bytes.
unfoldable pub gap : ℕ → ℕ
gap b = if ltb 112 b then 240 - b else 112 - b

-- The pending bytes after one more.
length-settle :
    (s p : List ℕ)
    → length (settle compress_block 128 s p).pending ≡ (if length p == 128 then 0 else length p)
unfolding settle
length-settle s p = elim (Bool-cases (length p == 128)) [
  | inl full ↦ rw (full, settle) refl
  | inr part ↦ rw (part, settle) refl
]

pub update-one :
    (h : Sha512) (x : ℕ)
    → IsStream h
    → (update h (x ∷ [])).buf_len ≡ (if h.buf_len + 1 == 128 then 0 else h.buf_len + 1)
unfolding absorb view
update-one h x ok =
    let p = take h.buf_len h.buffer in
    let (next_ok, seen) = update-absorb h (x ∷ []) ok in
    let count : length (p ++ (x ∷ [])) ≡ h.buf_len + 1 =
      omega (arith, length-append p (x ∷ []), length-held h ok) in
    sym (length-held (update h (x ∷ [])) next_ok)
    ∙ ap (λ (t : Partial (List ℕ)). length t.pending) seen
    ∙ length-settle h.state (p ++ (x ∷ []))
    ∙ ap (λ k. if k == 128 then 0 else k) count

-- From every such context, for at least as many turns as zeros are missing, the loop that feeds
-- zeros ends with 112 bytes at hand and has fed exactly those zeros.
pub pad_loop-zeros :
    (n : ℕ) (h : Sha512)
    → IsStream h
    → gap h.buf_len ≤ n
    → IsStream (pad_loop n h)
      × ((pad_loop n h).buf_len ≡ 112)
      × (view (pad_loop n h)
          ≡ absorb compress_block 128 h.state
              (take h.buf_len h.buffer)
              (replicate (gap h.buf_len) 0))
unfolding pad_loop gap absorb view
pad_loop-zeros zero h ok enough =
    let there : h.buf_len ≡ 112 = ground (arith, enough, ok.room) in
    let none : gap h.buf_len ≡ 0 = ground (arith, there) in
    (
      ok,
      there,
      ap (λ k. absorb compress_block 128 h.state (take h.buf_len h.buffer) (replicate k 0))
          (sym none),
    )
pad_loop-zeros (suc n) h ok enough = elim (Bool-cases (h.buf_len == 112)) [
  | inl stop ↦
      let there : h.buf_len ≡ 112 = ground (arith, stop) in
      let none : gap h.buf_len ≡ 0 = ground (arith, there) in
      rw (stop, pad_loop)
        (
          ok,
          there,
          ap (λ k. absorb compress_block 128 h.state (take h.buf_len h.buffer) (replicate k 0))
              (sym none),
        )
  | inr go ↦
      let next = update h (0 ∷ []) in
      let (next_ok, seen) = update-absorb h (0 ∷ []) ok in
      let one = update-one h 0 ok in
      let less : gap h.buf_len ≡ suc (gap next.buf_len) = rw one (ground (arith, go, ok.room)) in
      let (last_ok, there, last) = pad_loop-zeros n next next_ok (omega (arith, less, enough)) in
      rw (go, pad_loop, core_update-eq h (0 ∷ []))
        (
          last_ok,
          there,
          last
              ∙ ap
                  (λ (t : Partial (List ℕ)).
                    absorb compress_block 128 t.state t.pending (replicate (gap next.buf_len) 0))
                  seen
              ∙ ap
                  (λ k. absorb compress_block 128 h.state (take h.buf_len h.buffer) (replicate k 0))
                  (sym less),
        )
]
