-- ===== src/Poly1305/Stream.antt =====
-- The buffer of src/poly1305.rs, against the reference that takes one byte at a time.
use mcu_crypto_asm.Base.{
  ℕ, zero, suc, ◌+◌, ◌-◌, ◌*◌, ◌/◌, ◌^◌, ◌<◌, ◌≤◌, ◌≡◌, refl, ap, sym, ◌∙◌, inl, inr, List, [], ◌∷◌,
  ◌++◌, ltb, false, Bool-cases,
}
use mcu_crypto_asm.Base.{
  length, take, drop, length-append, length-take, length-drop, take-append, arith, min,
  length-copy_at, take-copy_at,
}
use mcu_crypto_asm.Absorb.{
  Partial, settle-part, settle-full, absorb, blocks, absorb-settle, absorb-split, absorb-bulk,
  blocks-take, rest_of,
}
use mcu_crypto_asm.Poly1305.{
  Five, Poly1305, add_block, mul_reduce, with_h, process_block, block_loop, with_buffer, keep_rest,
  update_blocks, update,
}

-- The buffer has the size of a block, and it is not full.
pub record IsBuffered (p : Poly1305) : Type 0 where
  pub size : length p.buffer ≡ 16
  pub room : p.leftover < 16

-- What the key does to an accumulator and a whole block.
unfoldable pub step : Five → List ℕ → Five → List ℕ → Five
step r s h block = mul_reduce (add_block h block (2 ^ 24)) r s

unfoldable pub view : Poly1305 → Partial Five
view p = record { state = p.h; pending = take p.leftover p.buffer }

-- The key and the pad stay.
pub record IsSameKey (p q : Poly1305) : Type 0 where
  pub r : q.r ≡ p.r
  pub s : q.s ≡ p.s
  pub pad : q.pad ≡ p.pad

pub block_loop-blocks :
    (n : ℕ) (p : Poly1305) (m : List ℕ)
    → block_loop n p m ≡ with_h p (blocks (step p.r p.s) 16 n p.h m)
unfolding block_loop blocks process_block step
block_loop-blocks zero p m = refl
block_loop-blocks (suc n) p m =
    block_loop-blocks n (process_block p (take 16 m) (2 ^ 24)) (drop 16 m)

keep_rest-view :
    (p : Poly1305) (m : List ℕ)
    → IsBuffered p
    → p.leftover ≡ 0
    → length m < 16
    → IsBuffered (keep_rest p m)
      × IsSameKey p (keep_rest p m)
      × (view (keep_rest p m) ≡ record { state = p.h; pending = m })
unfolding keep_rest view
keep_rest-view p [] ok empty few = (
  ok,
  record { r = refl; s = refl; pad = refl },
  ap (λ k. record { state = p.h; pending = take k p.buffer }) empty,
)
keep_rest-view p (x ∷ m) ok empty few =
    let rest = drop (length (x ∷ m)) p.buffer in
    (
      record {
        size = omega (
          arith,
          length-append (x ∷ m) rest,
          length-drop (length (x ∷ m)) p.buffer,
          ok.size,
          few,
        );
        room = few;
      },
      record { r = refl; s = refl; pad = refl },
      ap (λ d. record { state = p.h; pending = d })
          (take-append (x ∷ m) rest (length (x ∷ m)) refl),
    )

-- Once the started block is done with.
update_blocks-absorb :
    (p : Poly1305) (m : List ℕ)
    → IsBuffered p
    → p.leftover ≡ 0
    → IsBuffered (update_blocks p m)
      × IsSameKey p (update_blocks p m)
      × (view (update_blocks p m) ≡ absorb (step p.r p.s) 16 p.h [] m)
unfolding update_blocks
update_blocks-absorb p m ok empty =
    let k = length m / 16 in
    let h = blocks (step p.r p.s) 16 k p.h m in
    let same : 16 * k ≡ k * 16 = omega arith in
    let few : length (drop (k * 16) m) < 16 = omega (arith, length-drop (k * 16) m) in
    let (kept, key, seen) =
      keep_rest-view (with_h p h) (drop (k * 16) m) (record { size = ok.size; room = ok.room })
        empty few in
    rw (block_loop-blocks k p m, same)
      (
        kept,
        record { r = key.r; s = key.s; pad = key.pad },
        seen
            ∙ ap (λ h. record { state = h; pending = drop (k * 16) m })
                (sym (blocks-take (step p.r p.s) 16 k p.h m))
            ∙ sym (absorb-bulk (step p.r p.s) 16 p.h [] m (omega arith) (inl refl)),
      )

pub length-held : (p : Poly1305) → IsBuffered p → length (take p.leftover p.buffer) ≡ p.leftover
length-held p ok = omega (arith, length-take p.leftover p.buffer, ok.size, ok.room)

-- A message that does not fill the started block.
short-absorb :
    (p : Poly1305) (m : List ℕ)
    → IsBuffered p
    → p.leftover + length m < 16
    → (let q =
          with_buffer p
            (take p.leftover p.buffer ++ m ++ drop (p.leftover + length m) p.buffer)
            (p.leftover + length m) in
        IsBuffered q
        × IsSameKey p q
        × (view q ≡ absorb (step p.r p.s) 16 p.h (take p.leftover p.buffer) m))
unfolding view
short-absorb p m ok few =
    let held = take p.leftover p.buffer in
    let room : p.leftover + length m ≤ length p.buffer = omega (arith, ok.size, few) in
    let count : length (held ++ m) ≡ p.leftover + length m =
      omega (arith, length-append held m, length-held p ok) in
    (
      record { size = length-copy_at p.leftover m p.buffer room ∙ ok.size; room = few },
      record { r = refl; s = refl; pad = refl },
      ap (λ d. record { state = p.h; pending = d }) (take-copy_at p.leftover m p.buffer room)
          ∙ sym (settle-part (step p.r p.s) 16 p.h (held ++ m) (omega (arith, count, few)))
          ∙ sym (
              absorb-settle (step p.r p.s) 16 p.h held m (omega (arith, length-held p ok, ok.room))
                (omega (arith, length-held p ok, few))),
    )

-- From every state whose buffer has the size of a block and is not full.
pub update-absorb :
    (p : Poly1305) (m : List ℕ)
    → IsBuffered p
    → IsBuffered (update p m)
      × IsSameKey p (update p m)
      × (view (update p m) ≡ absorb (step p.r p.s) 16 p.h (take p.leftover p.buffer) m)
unfolding update process_block step
update-absorb p m ok = elim (Bool-cases (ltb 0 p.leftover)) [
  | inr none ↦
      let empty : p.leftover ≡ 0 = ground (arith, none) in
      let (kept, key, seen) = update_blocks-absorb p m ok empty in
      let nothing : take p.leftover p.buffer ≡ [] = ap (λ k. take k p.buffer) empty in
      rw (none, update) (kept, key, seen ∙ ap (λ d. absorb (step p.r p.s) 16 p.h d m) (sym nothing))
  | inl some ↦ elim (Bool-cases (ltb (length m) (16 - p.leftover))) [
    | inl short ↦ rw (some, short, update) (short-absorb p m ok (ground (arith, short)))
    | inr long ↦
        let want = 16 - p.leftover in
        let held = take p.leftover p.buffer in
        let block = held ++ take want m in
        let started : length held ≡ p.leftover = length-held p ok in
        let full : length block ≡ 16 =
          whole (length-append held (take want m)) (length-take want m) started long in
        let next = process_block (with_buffer p block 0) block (2 ^ 24) in
        let next_ok : IsBuffered next = record { size = full; room = omega arith } in
        let (kept, key, seen) = update_blocks-absorb next (drop want m) next_ok refl in
        rw (some, long, update)
          (
            kept,
            record { r = key.r; s = key.s; pad = key.pad },
            seen
                ∙ ap (λ (t : Partial Five). rest_of (step p.r p.s) 16 t (drop want m))
                    (sym (settle-full (step p.r p.s) 16 p.h block full))
                ∙ sym (
                    absorb-split (step p.r p.s) 16 p.h held m want (omega (arith, started, ok.room))
                      (omega (arith, started, ok.room))),
          )
  ]
]
  where
    whole :
        {n a b : ℕ}
        → n ≡ a + b
        → b ≡ min (16 - p.leftover) (length m)
        → a ≡ p.leftover
        → ltb (length m) (16 - p.leftover) ≡ false
        → n ≡ 16
    whole e f g h = ground (arith, e, f, g, h, ok.room)
