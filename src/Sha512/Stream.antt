-- ===== src/Sha512/Stream.antt =====
-- The buffer of src/sha512.rs, against the reference that takes one byte at a time.
use mcu_crypto_asm.Base.{
  ℕ, zero, suc, ◌+◌, ◌-◌, ◌*◌, ◌/◌, ◌%◌, ◌^◌, ◌<◌, ◌≤◌, ◌≡◌, refl, ap, sym, ◌∙◌, ◌⊎◌, inl, inr, min,
  ltb, List, [], ◌∷◌, ◌++◌, append-nil,
}
use mcu_crypto_asm.Base.{
  length, take, drop, length-append, length-take, length-drop, take_all, take-append,
  length-copy_at, take-copy_at, copy_at, arith,
}
use mcu_crypto_asm.Base.{Bool-cases, ◌==◌, ==_iff, if◌then◌else◌}
use native.Mathlib.Nat.{div-mul-le_self}
use mcu_crypto_asm.Absorb.{
  Partial, settle, absorb, blocks, absorb-split, absorb-bulk, one_empty, wanted, rest_of,
}
use mcu_crypto_asm.Sha512.{
  Sha512, new, compress_block, portable_loop, portable_compress_blocks, compress_blocks,
  fill_buffer, compress_bulk, keep_rest, count_bytes, update, with_state,
}

-- The buffer has the size of a block, and it is not full.
pub record IsStream (h : Sha512) : Type 0 where
  pub size : length h.buffer ≡ 128
  pub room : h.buf_len < 128

-- What the later bytes depend on.
unfoldable pub view : Sha512 → Partial (List ℕ)
view h = record { state = h.state; pending = take h.buf_len h.buffer }

portable_loop-blocks :
    (k : ℕ) (s d : List ℕ) → portable_loop k s d ≡ blocks compress_block 128 k s d
unfolding portable_loop blocks
portable_loop-blocks zero s d = refl
portable_loop-blocks (suc k) s d =
    portable_loop-blocks k (compress_block s (take 128 d)) (drop 128 d)

-- The test for no block at all changes nothing.
pub compress_blocks-blocks :
    (s d : List ℕ) → compress_blocks s d ≡ blocks compress_block 128 (length d / 128) s d
unfolding compress_blocks portable_compress_blocks blocks
compress_blocks-blocks s d = elim (Bool-cases (length d / 128 == 0)) [
  | inl none ↦ let zero_blocks = (==_iff (length d / 128) 0).0 none in rw (none, zero_blocks)
  | inr some ↦ rw (some, compress_blocks) (portable_loop-blocks (length d / 128) s d)
]

pub one_block : (s b : List ℕ) → length b ≡ 128 → compress_blocks s b ≡ compress_block s b
unfolding blocks
one_block s b size =
    let one : length b / 128 ≡ 1 = omega (arith, size) in
    compress_blocks-blocks s b
    ∙ ap (λ k. blocks compress_block 128 k s b) one
    ∙ ap (compress_block s) (take_all 128 b (omega (arith, size)))

pub new-IsStream : (iv : List ℕ) → IsStream (new iv)
unfolding new
new-IsStream iv = record { size = refl; room = omega arith }

pub length-held : (h : Sha512) → IsStream h → length (take h.buf_len h.buffer) ≡ h.buf_len
length-held h ok = omega (arith, length-take h.buf_len h.buffer, ok.size, ok.room)

fill_buffer-settle :
    (h : Sha512) (part : List ℕ)
    → IsStream h
    → h.buf_len + length part ≤ 128
    → IsStream (fill_buffer h part)
      × (view (fill_buffer h part)
          ≡ settle compress_block 128 h.state (take h.buf_len h.buffer ++ part))
unfolding fill_buffer settle view
fill_buffer-settle h part ok fits =
    let buffer = copy_at h.buf_len part h.buffer in
    let room : h.buf_len + length part ≤ length h.buffer = omega (arith, ok.size, fits) in
    let size : length buffer ≡ 128 = length-copy_at h.buf_len part h.buffer room ∙ ok.size in
    let count : length (take h.buf_len h.buffer ++ part) ≡ h.buf_len + length part =
      omega (arith, length-append (take h.buf_len h.buffer) part, length-held h ok) in
    let content : take (h.buf_len + length part) buffer ≡ take h.buf_len h.buffer ++ part =
      take-copy_at h.buf_len part h.buffer room in
    elim (Bool-cases (h.buf_len + length part == 128)) [
      | inl full ↦
          let whole = (==_iff (h.buf_len + length part) 128).0 full in
          let block : buffer ≡ take h.buf_len h.buffer ++ part =
            sym (take_all (h.buf_len + length part) buffer (omega (arith, size, whole)))
            ∙ content in
          rw (count, full, fill_buffer, settle)
            (
              record { size = size; room = omega arith },
              ap (λ s. record { state = s; pending = [] })
                  (one_block h.state buffer size ∙ ap (compress_block h.state) block),
            )
      | inr part_of ↦
          rw (count, part_of, fill_buffer, settle)
            (
              record { size = size; room = ground (arith, fits) },
              ap (λ p. record { state = h.state; pending = p }) content,
            )
    ]

keep_rest-view :
    (h : Sha512) (rest : List ℕ)
    → IsStream h
    → length rest < 128
    → (take h.buf_len h.buffer ≡ []) ⊎ (rest ≡ [])
    → IsStream (keep_rest h rest)
      × (view (keep_rest h rest)
          ≡ record { state = h.state; pending = take h.buf_len h.buffer ++ rest })
unfolding keep_rest view
keep_rest-view h [] ok few start = (
  record { size = ok.size; room = ok.room },
  ap (λ p. record { state = h.state; pending = p }) (sym (append-nil (take h.buf_len h.buffer))),
)
keep_rest-view h (x ∷ rest) ok few (inl e) =
    let room : 0 + length (x ∷ rest) ≤ length h.buffer = omega (arith, ok.size, few) in
    (
      record { size = length-copy_at 0 (x ∷ rest) h.buffer room ∙ ok.size; room = few },
      ap (λ p. record { state = h.state; pending = p })
          (take-append (x ∷ rest) (drop (0 + length (x ∷ rest)) h.buffer) (length (x ∷ rest)) refl
            ∙ ap (λ p. p ++ (x ∷ rest)) (sym e)),
    )
keep_rest-view h (x ∷ rest) ok few (inr e) = absurd (omega (arith, ap length e))

pub bulk_state :
    (h : Sha512) (msg : List ℕ)
    → length (take (length msg / 128 * 128) msg) / 128 ≡ length msg / 128
    → compress_bulk h msg
      ≡ with_state h
          (blocks compress_block 128 (length msg / 128) h.state (take (length msg / 128 * 128) msg))
unfolding compress_bulk blocks
bulk_state h msg total = elim (Bool-cases (ltb 0 (length msg / 128))) [
  | inl some ↦
      rw (some, compress_bulk)
        (ap (with_state h) (
          compress_blocks-blocks h.state (take (length msg / 128 * 128) msg)
          ∙ ap (λ k. blocks compress_block 128 k h.state (take (length msg / 128 * 128) msg))
              total))
  | inr none ↦
      let zero_blocks : length msg / 128 ≡ 0 = ground arith in
      rw (none, compress_bulk, zero_blocks) refl
]

-- The bulk and the rest, once the started block is done with.
bulk-absorb :
    (h : Sha512) (msg : List ℕ)
    → IsStream h
    → (take h.buf_len h.buffer ≡ []) ⊎ (msg ≡ [])
    → IsStream (keep_rest (compress_bulk h msg) (drop (length msg / 128 * 128) msg))
      × (view (keep_rest (compress_bulk h msg) (drop (length msg / 128 * 128) msg))
          ≡ absorb compress_block 128 h.state (take h.buf_len h.buffer) msg)
bulk-absorb h msg ok start =
    let k = length msg / 128 in
    let total : length (take (k * 128) msg) / 128 ≡ k =
      omega (arith, length-take (k * 128) msg, div-mul-le_self (length msg) 128) in
    let few : length (drop (k * 128) msg) < 128 = omega (arith, length-drop (k * 128) msg) in
    let state : compress_bulk h msg
        ≡ with_state h (blocks compress_block 128 k h.state (take (k * 128) msg)) =
      bulk_state h msg total in
    let (kept, seen) =
      keep_rest-view (with_state h (blocks compress_block 128 k h.state (take (k * 128) msg)))
        (drop (k * 128) msg) (record { size = ok.size; room = ok.room }) few (late start) in
    rw state (
      kept,
      seen
          ∙ sym (
              absorb-bulk compress_block 128 h.state (take h.buf_len h.buffer) msg (omega arith)
                start),
    )
  where
    late :
        (take h.buf_len h.buffer ≡ []) ⊎ (msg ≡ [])
        → (take h.buf_len h.buffer ≡ []) ⊎ (drop (length msg / 128 * 128) msg ≡ [])
    late (inl e) = inl e
    late (inr e) = inr (rw e refl)

started :
    (h : Sha512) (msg : List ℕ)
    → IsStream h
    → (let k = if ltb 0 h.buf_len then min (128 - h.buf_len) (length msg) else 0 in
        let next = if ltb 0 h.buf_len then fill_buffer h (take k msg) else h in
        IsStream next
        × (view next ≡ settle compress_block 128 h.state (take h.buf_len h.buffer ++ take k msg)))
unfolding view settle
started h msg ok = elim (Bool-cases (ltb 0 h.buf_len)) [
  | inl some ↦
      let fits : h.buf_len + length (take (min (128 - h.buf_len) (length msg)) msg) ≤ 128 =
        omega (arith, length-take (min (128 - h.buf_len) (length msg)) msg, ok.room) in
      rw some (fill_buffer-settle h (take (min (128 - h.buf_len) (length msg)) msg) ok fits)
  | inr none ↦
      let empty : h.buf_len ≡ 0 = ground arith in
      rw (none, empty) (record { size = ok.size; room = omega (arith, ok.room, empty) }, refl)
]

-- From every context whose buffer has the size of a block and is not full, `Sha512::update`
-- leaves such a context, with the state and the pending bytes that taking one byte at a time
-- gives.
pub update-absorb :
    (h : Sha512) (msg : List ℕ)
    → IsStream h
    → IsStream (update h msg)
      × (view (update h msg) ≡ absorb compress_block 128 h.state (take h.buf_len h.buffer) msg)
unfolding update count_bytes view
update-absorb h msg ok =
    let p = take h.buf_len h.buffer in
    let counted = count_bytes h (length msg) in
    let counted_ok : IsStream counted = record { size = ok.size; room = ok.room } in
    let k = if ltb 0 h.buf_len then min (128 - h.buf_len) (length msg) else 0 in
    let held : length p ≡ h.buf_len = length-held h ok in
    let same : wanted compress_block 128 p msg ≡ k = rw held refl in
    let next = if ltb 0 h.buf_len then fill_buffer counted (take k msg) else counted in
    let (next_ok, seen) = started counted msg counted_ok in
    let start : (take next.buf_len next.buffer ≡ []) ⊎ (drop k msg ≡ []) =
      elim (one_empty compress_block 128 h.state p msg (omega (arith, held, ok.room))) [
        | inl e ↦ inl (
            ap (λ (t : Partial (List ℕ)). t.pending) seen
            ∙ ap (λ j. (settle compress_block 128 h.state (p ++ take j msg)).pending) (sym same)
            ∙ e)
        | inr e ↦ inr (ap (λ j. drop j msg) (sym same) ∙ e)
      ] in
    let (last_ok, last) = bulk-absorb next (drop k msg) next_ok start in
    (
      last_ok,
      last
          ∙ ap (λ (t : Partial (List ℕ)). rest_of compress_block 128 t (drop k msg)) seen
          ∙ sym (
              absorb-split compress_block 128 h.state p msg k (omega (arith, held, ok.room))
                (ground (arith, held, ok.room))),
    )

total_len-fill_buffer : (h : Sha512) (part : List ℕ) → (fill_buffer h part).total_len ≡ h.total_len
unfolding fill_buffer
total_len-fill_buffer h part = elim (Bool-cases (h.buf_len + length part == 128)) [
  | inl full ↦ rw (full, fill_buffer) refl
  | inr room ↦ rw (room, fill_buffer) refl
]

total_len-keep_rest : (h : Sha512) (rest : List ℕ) → (keep_rest h rest).total_len ≡ h.total_len
unfolding keep_rest
total_len-keep_rest h [] = refl
total_len-keep_rest h (x ∷ rest) = refl

total_len-compress_bulk :
    (h : Sha512) (msg : List ℕ) → (compress_bulk h msg).total_len ≡ h.total_len
unfolding compress_bulk
total_len-compress_bulk h msg = elim (Bool-cases (ltb 0 (length msg / 128))) [
  | inl some ↦ rw (some, compress_bulk) refl
  | inr none ↦ rw (none, compress_bulk) refl
]

pub total_len-update :
    (h : Sha512) (msg : List ℕ) → (update h msg).total_len ≡ (h.total_len + length msg) % 2 ^ 128
unfolding update count_bytes
total_len-update h msg =
    let k = if ltb 0 h.buf_len then min (128 - h.buf_len) (length msg) else 0 in
    let counted = count_bytes h (length msg) in
    let next = if ltb 0 h.buf_len then fill_buffer counted (take k msg) else counted in
    let rest = drop k msg in
    total_len-keep_rest (compress_bulk next rest) (drop (length rest / 128 * 128) rest)
    ∙ total_len-compress_bulk next rest
    ∙ elim (Bool-cases (ltb 0 h.buf_len)) [
      | inl some ↦
          rw some (total_len-fill_buffer counted (take (min (128 - h.buf_len) (length msg)) msg))
      | inr none ↦ rw none refl
    ]
