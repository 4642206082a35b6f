-- ===== src/Sha512/Core/Digest.antt =====
-- The digests of src/sha512.rs, against the padded message of FIPS 180-4.
use mcu_crypto_asm.Base.{
  ℕ, ◌+◌, ◌-◌, ◌*◌, ◌/◌, ◌%◌, ◌^◌, ◌<◌, ◌≤◌, ◌≡◌, refl, ap, sym, ◌∙◌, inl, inr, List, [], ◌∷◌, ◌++◌,
  ltb, append_assoc, append-nil,
}
use mcu_crypto_asm.Base.{
  length, take, length-append, drop_all, length-copy_at, copy_at, arith, replicate,
  length-replicate, replicate-add, Bool-cases, if◌then◌else◌, ◌==◌,
}
use mcu_crypto_asm.Absorb.{
  Partial, settle-full, absorb, blocks, absorb-append, absorb-settle, rest_of,
}
use mcu_crypto_asm.Sha512.{
  Sha512, compress_block, compress_blocks, update, to_be64, to_be128, digest_bytes, last_block,
  finalize,
}
use mcu_crypto_asm.Sha512.Core.{pad_loop, core_finalize}
use mcu_crypto_asm.Sha512.Core.Padding.{gap, pad_loop-zeros, core_update-eq, update-one}
use mcu_crypto_asm.Sha512.Stream.{IsStream, view, one_block, update-absorb, length-held}

-- What follows a message of `n` bytes: the mark, zeros, and the length in bits.
unfoldable pub ending : ℕ → ℕ → List ℕ
ending b n = 0x80 ∷ replicate ((239 - b) % 128) 0 ++ to_be128 (n * 8 % 2 ^ 128)

-- The digest of whole blocks.
unfoldable pub digest_of : List ℕ → List ℕ → List ℕ
digest_of iv blocks_of =
    digest_bytes (blocks compress_block 128 (length blocks_of / 128) iv blocks_of)

abbrev pub hash : List ℕ → List ℕ → List ℕ
hash iv msg = digest_of iv (msg ++ ending (length msg % 128) (length msg))

pub length-to_be128 : (x : ℕ) → length (to_be128 x) ≡ 16
unfolding to_be128 to_be64
length-to_be128 x = refl

full_block :
    (s p d : List ℕ)
    → length p < 128
    → length p + length d ≡ 128
    → absorb compress_block 128 s p d ≡ record { state = compress_block s (p ++ d); pending = [] }
full_block s p d room full =
    absorb-settle compress_block 128 s p d room (omega (arith, full))
    ∙ settle-full compress_block 128 s (p ++ d) (length-append p d ∙ full)

last_block-full :
    (s front : List ℕ) (n : ℕ)
    → length front ≡ 112
    → last_block s front n ≡ digest_bytes (compress_block s (front ++ to_be128 n))
unfolding last_block
last_block-full s front n size = ap digest_bytes (
    one_block s (front ++ to_be128 n)
      (omega (arith, length-append front (to_be128 n), length-to_be128 n, size)))

-- One block is enough for the ending.
finalize-short :
    (s p bits : List ℕ) (b : ℕ)
    → length p ≡ b
    → b < 112
    → length bits ≡ 16
    → (absorb compress_block 128 s p (0x80 ∷ replicate ((239 - b) % 128) 0 ++ bits)).state
      ≡ compress_block s ((p ++ (0x80 ∷ []) ++ replicate (112 - (b + 1)) 0) ++ bits)
finalize-short s p bits b held short size =
    let zeros : (239 - b) % 128 ≡ 112 - (b + 1) = omega (arith, short) in
    let z : List ℕ = replicate (112 - (b + 1)) 0 in
    let count : length (0x80 ∷ z ++ bits) ≡ 128 - b = omega (
      arith,
      length-append (0x80 ∷ z) bits,
      length-replicate {A = ℕ} (112 - (b + 1)) 0,
      size,
      short,
    ) in
    ap (λ k. (absorb compress_block 128 s p (0x80 ∷ replicate k 0 ++ bits)).state) zeros
    ∙ ap (λ (t : Partial (List ℕ)). t.state)
        (full_block s p (0x80 ∷ z ++ bits) (omega (arith, held, short))
          (omega (arith, held, count, short)))
    ∙ ap (compress_block s) (
        sym (append_assoc p (0x80 ∷ z) bits)
        ∙ ap (λ t. t ++ bits) (sym (append_assoc p (0x80 ∷ []) z)))

-- The ending takes two blocks.
finalize-long :
    (s p bits : List ℕ) (b : ℕ)
    → length p ≡ b
    → 112 ≤ b
    → b < 128
    → length bits ≡ 16
    → (absorb compress_block 128 s p (0x80 ∷ replicate ((239 - b) % 128) 0 ++ bits)).state
      ≡ compress_block
          (compress_blocks s (p ++ (0x80 ∷ []) ++ replicate (128 - (b + 1)) 0))
          (replicate 112 0 ++ bits)
finalize-long s p bits b held long room size =
    let k = 128 - (b + 1) in
    let zeros : (239 - b) % 128 ≡ k + 112 = omega (arith, long, room) in
    let first : List ℕ = 0x80 ∷ replicate k 0 in
    let second : List ℕ = replicate 112 0 ++ bits in
    let split : 0x80 ∷ replicate (k + 112) 0 ++ bits ≡ first ++ second =
      ap (λ t. 0x80 ∷ t ++ bits) (replicate-add k 112 0)
      ∙ append_assoc first (replicate 112 0) bits in
    let count : length first ≡ 128 - b = omega (arith, length-replicate {A = ℕ} k 0, room) in
    let block : length (p ++ (0x80 ∷ []) ++ replicate k 0) ≡ 128 =
      ap length (append_assoc p (0x80 ∷ []) (replicate k 0))
      ∙ omega (arith, length-append p first, count, held, room) in
    ap (λ k. (absorb compress_block 128 s p (0x80 ∷ replicate k 0 ++ bits)).state) zeros
    ∙ ap (λ d. (absorb compress_block 128 s p d).state) split
    ∙ ap (λ (t : Partial (List ℕ)). t.state)
        (absorb-append compress_block 128 s p first second
          ∙ ap (λ t. rest_of compress_block 128 t second)
              (full_block s p first (omega (arith, held, room)) (omega (arith, held, count, room)))
          ∙ full_block (compress_block s (p ++ first)) [] second (omega arith) (
              omega (
                arith,
                length-append (replicate 112 0) bits,
                length-replicate {A = ℕ} 112 0,
                size,
              )))
    ∙ ap (λ t. compress_block t second)
        (ap (compress_block s) (sym (append_assoc p (0x80 ∷ []) (replicate k 0)))
          ∙ sym (one_block s (p ++ (0x80 ∷ []) ++ replicate k 0) block))

-- Both ways of ending give what the reference holds after the ending.
pub finalize-absorb :
    (h : Sha512)
    → IsStream h
    → finalize h
      ≡ digest_bytes
          (absorb compress_block 128 h.state
            (take h.buf_len h.buffer)
            (ending h.buf_len h.total_len)).state
unfolding finalize ending
finalize-absorb h ok =
    let p = take h.buf_len h.buffer in
    let held : length p ≡ h.buf_len = length-held h ok in
    let n = h.total_len * 8 % 2 ^ 128 in
    let size = length-to_be128 n in
    elim (Bool-cases (ltb 112 (h.buf_len + 1))) [
      | inl long ↦
          rw (long, finalize)
            (last_block-full
                (compress_blocks h.state (p ++ (0x80 ∷ []) ++ replicate (128 - (h.buf_len + 1)) 0))
                (replicate 112 0) n refl
              ∙ ap digest_bytes (
                  sym (
                    finalize-long h.state p (to_be128 n) h.buf_len held (ground (arith, long))
                      ok.room size)))
      | inr short ↦
          let few : h.buf_len < 112 = ground (arith, short) in
          let front : List ℕ = p ++ (0x80 ∷ []) ++ replicate (112 - (h.buf_len + 1)) 0 in
          let front_size : length front ≡ 112 =
            ap length (append_assoc p (0x80 ∷ []) (replicate (112 - (h.buf_len + 1)) 0))
            ∙ omega (
              arith,
              length-append p (0x80 ∷ replicate (112 - (h.buf_len + 1)) 0),
              length-replicate {A = ℕ} (112 - (h.buf_len + 1)) 0,
              held,
              few,
            ) in
          rw (short, finalize)
            (last_block-full h.state front n front_size
              ∙ ap digest_bytes
                  (sym (finalize-short h.state p (to_be128 n) h.buf_len held few size)))
    ]

gap_lem : (b : ℕ) → b < 128 → gap (if b + 1 == 128 then 0 else b + 1) ≡ (239 - b) % 128
unfolding gap
gap_lem b room = ground (arith, room)

copied :
    (h : Sha512) (bits : List ℕ)
    → IsStream h
    → length bits ≡ 16
    → length (copy_at 112 bits h.buffer) ≡ 128
copied h bits ok size = length-copy_at 112 bits h.buffer (omega (arith, ok.size, size)) ∙ ok.size

pub core_finalize-absorb :
    (h : Sha512)
    → IsStream h
    → core_finalize h
      ≡ digest_bytes
          (absorb compress_block 128 h.state
            (take h.buf_len h.buffer)
            (ending h.buf_len h.total_len)).state
unfolding core_finalize ending view
core_finalize-absorb h ok =
    let p = take h.buf_len h.buffer in
    let bits = to_be128 (h.total_len * 8 % 2 ^ 128) in
    let size : length bits ≡ 16 = length-to_be128 (h.total_len * 8 % 2 ^ 128) in
    let marked = update h (0x80 ∷ []) in
    let (marked_ok, marked_seen) = update-absorb h (0x80 ∷ []) ok in
    let zeros : gap marked.buf_len ≡ (239 - h.buf_len) % 128 =
      ap gap (update-one h 0x80 ok) ∙ gap_lem h.buf_len ok.room in
    let (h_ok, there, seen) = pad_loop-zeros 128 marked marked_ok (omega (arith, zeros)) in
    let last = pad_loop 128 marked in
    let held : length (take last.buf_len last.buffer) ≡ 112 = length-held last h_ok ∙ there in
    let block : copy_at 112 bits last.buffer ≡ take last.buf_len last.buffer ++ bits =
      ap (λ t. take 112 last.buffer ++ bits ++ t)
        (drop_all (112 + length bits) last.buffer (omega (arith, h_ok.size, size)))
      ∙ append-nil (take 112 last.buffer ++ bits)
      ∙ ap (λ k. take k last.buffer ++ bits) (sym there) in
    let tail = λ (t : Partial (List ℕ)). rest_of compress_block 128 t bits in
    let then_zeros =
      λ (t : Partial (List ℕ)) (k : ℕ). rest_of compress_block 128 t (replicate k 0) in
    rw (core_update-eq h (0x80 ∷ [])) (
      ap digest_bytes (
        one_block last.state (copy_at 112 bits last.buffer) (copied last bits h_ok size)
        ∙ ap (compress_block last.state) block
        ∙ ap (λ (t : Partial (List ℕ)). t.state)
            (sym (
                full_block last.state (take last.buf_len last.buffer) bits (omega (arith, held))
                  (omega (arith, held, size)))
              ∙ ap tail (seen ∙ ap (λ t. then_zeros t (gap marked.buf_len)) marked_seen)
              ∙ ap (λ k. tail (then_zeros (absorb compress_block 128 h.state p (0x80 ∷ [])) k))
                  zeros
              ∙ sym (
                  absorb-append compress_block 128
                    (absorb compress_block 128 h.state p (0x80 ∷ [])).state
                    (absorb compress_block 128 h.state p (0x80 ∷ [])).pending
                    (replicate ((239 - h.buf_len) % 128) 0) bits)
              ∙ sym (
                  absorb-append compress_block 128 h.state p (0x80 ∷ [])
                    (replicate ((239 - h.buf_len) % 128) 0 ++ bits)))))

-- From every context whose buffer has the size of a block and is not full,
-- `Sha512Core::finalize`, byte by byte, equals `Sha512::finalize`, which writes the padding at
-- once.
pub core_finalize-finalize : (h : Sha512) → IsStream h → core_finalize h ≡ finalize h
core_finalize-finalize h ok = core_finalize-absorb h ok ∙ sym (finalize-absorb h ok)
