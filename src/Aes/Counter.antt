-- ===== src/Aes/Counter.antt =====
-- `ctr_apply` against the reference that takes a byte of keystream at a time, and the counters.
use mcu_crypto_asm.Base.{
  ℕ, zero, suc, ◌+◌, ◌*◌, ◌/◌, ◌%◌, ◌^◌, ◌<◌, ◌≤◌, ◌≡◌, refl, ap, sym, ◌∙◌, List, [], ◌∷◌, ◌++◌,
}
use mcu_crypto_asm.Base.{
  length, take, drop, arith, length-take, length-drop, take-append-drop, drop_all, drop-drop,
  Bool-cases, inl, inr,
}
use mcu_crypto_asm.Base.{leb, if◌then◌else◌}
use mcu_crypto_asm.Bytes.{IsBytes}
use mcu_crypto_asm.Keystream.{
  xor_bytes, Run, run, then_run, run-append, run-within, run-fresh, run_cancel, length-run,
}
use mcu_crypto_asm.Aes.{AesEncrypt, inc_bytes, inc128, ctr_pairs, ctr_blocks, ctr_tail, ctr_apply}

module _ (aes : AesEncrypt) (inc : List ℕ → List ℕ) where
  -- The reference at the start of a block.
  abbrev pub stream : List ℕ → List ℕ → Run (List ℕ)
  stream counter buf = run aes.encrypt_block inc counter [] buf

  abbrev pub result : List ℕ × List ℕ → List ℕ → Run (List ℕ)
  result (c, out) unread = record { counter = c; unread = unread; bytes = out }

  -- One whole block.
  pub stream-block :
      (c d : List ℕ)
      → length d ≡ 16
      → stream c d ≡ result (inc c, xor_bytes d (aes.encrypt_block c)) []
  stream-block c [] n = absurd (omega arith)
  stream-block c (x ∷ d) n =
      let k = aes.length-encrypt_block c in
      run-fresh aes.encrypt_block inc c x d (omega arith)
      ∙ run-within aes.encrypt_block inc (inc c) (aes.encrypt_block c) (x ∷ d) (omega arith)
      ∙ ap (λ u. result (inc c, xor_bytes (x ∷ d) (aes.encrypt_block c)) u)
          (drop_all (length (x ∷ d)) (aes.encrypt_block c) (omega arith))

  -- One whole block, and then the rest.
  stream-block_append :
      (c buf : List ℕ)
      → 16 ≤ length buf
      → stream c buf
        ≡ then_run aes.encrypt_block inc
            (result (inc c, xor_bytes (take 16 buf) (aes.encrypt_block c)) [])
            (drop 16 buf)
  stream-block_append c buf fits =
      ap (stream c) (sym (take-append-drop 16 buf))
      ∙ run-append aes.encrypt_block inc c [] (take 16 buf) (drop 16 buf)
      ∙ ap (λ r. then_run aes.encrypt_block inc r (drop 16 buf))
          (stream-block c (take 16 buf) (length-take 16 buf ∙ omega arith))

  pub ctr_blocks-stream :
      (n : ℕ) (c buf : List ℕ)
      → length buf ≡ 16 * n
      → stream c buf ≡ result (ctr_blocks aes inc n c buf) []
  unfolding ctr_blocks run
  ctr_blocks-stream zero c [] h = refl
  ctr_blocks-stream zero c (x ∷ d) h = absurd (omega arith)
  ctr_blocks-stream (suc n) c buf h =
      stream-block_append c buf (omega arith)
      ∙ rw (ctr_blocks-stream n (inc c) (drop 16 buf) (length-drop 16 buf ∙ omega arith))

  ctr_pairs-stream :
      (n : ℕ) (c buf : List ℕ)
      → length buf ≡ 32 * n
      → stream c buf ≡ result (ctr_pairs aes inc n c buf) []
  unfolding ctr_pairs run
  ctr_pairs-stream zero c [] h = refl
  ctr_pairs-stream zero c (x ∷ d) h = absurd (omega arith)
  ctr_pairs-stream (suc n) c buf h =
      let k1 = aes.encrypt_block (inc c) in
      let n1 = length-drop 16 buf in
      stream-block_append c buf (omega arith)
      ∙ rw (
        stream-block_append (inc c) (drop 16 buf) (omega arith),
        drop-drop 16 16 buf,
        ctr_pairs-stream n (inc (inc c)) (drop 32 buf) (length-drop 32 buf ∙ omega arith),
      )

  ctr_tail-stream :
      (c buf : List ℕ)
      → length buf < 16
      → (unread : List ℕ) × (stream c buf ≡ result (ctr_tail aes inc c buf) unread)
  unfolding ctr_tail run
  ctr_tail-stream c [] h = ([], refl)
  ctr_tail-stream c (x ∷ d) h =
      let k = aes.length-encrypt_block c in
      (
        drop (length (x ∷ d)) (aes.encrypt_block c),
        run-fresh aes.encrypt_block inc c x d (omega arith)
            ∙ run-within aes.encrypt_block inc (inc c) (aes.encrypt_block c) (x ∷ d) (omega arith),
      )

  -- Two stretches, the first of which ends with a block.
  join :
      (c c1 c2 : List ℕ) (o1 o2 u : List ℕ) (n : ℕ) (d : List ℕ)
      → stream c (take n d) ≡ result (c1, o1) []
      → stream c1 (drop n d) ≡ result (c2, o2) u
      → stream c d ≡ result (c2, o1 ++ o2) u
  join c c1 c2 o1 o2 u n d e f =
      ap (stream c) (sym (take-append-drop n d))
      ∙ run-append aes.encrypt_block inc c [] (take n d) (drop n d)
      ∙ ap (λ r. then_run aes.encrypt_block inc r (drop n d)) e
      ∙ rw f

  -- From every counter, with every counter function, `ctr_apply`, by pairs of blocks, blocks and
  -- a tail, puts out what the byte-at-a-time reference does and leaves the counter where it does.
  pub ctr_apply-stream :
      (c buf : List ℕ)
      → (unread : List ℕ) × (stream c buf ≡ result (ctr_apply aes inc c buf) unread)
  unfolding ctr_apply
  ctr_apply-stream c buf =
      let (unread, last) = ctr_tail-stream c2 tail (omega (arith, length-drop (16 * blocks) rem)) in
      (
        unread,
        join c c1 _ _ _ unread (32 * pairs) buf
            (ctr_pairs-stream pairs c (take (32 * pairs) buf)
              (length-take (32 * pairs) buf ∙ omega arith))
            (join c1 c2 _ _ _ unread (16 * blocks) rem
              (ctr_blocks-stream blocks c1 (take (16 * blocks) rem)
                (length-take (16 * blocks) rem ∙ omega arith))
              last),
      )
    where
      pairs : ℕ
      pairs = length buf / 32

      rem : List ℕ
      rem = drop (32 * pairs) buf

      blocks : ℕ
      blocks = length rem / 16

      tail : List ℕ
      tail = drop (16 * blocks) rem

      c1 : List ℕ
      c1 = (ctr_pairs aes inc pairs c (take (32 * pairs) buf)).0

      c2 : List ℕ
      c2 = (ctr_blocks aes inc blocks c1 (take (16 * blocks) rem)).0

  -- `ctr_apply` applied twice from one counter gives the data back.
  pub ctr_apply_cancel :
      (c buf : List ℕ) → (ctr_apply aes inc c ((ctr_apply aes inc c buf).1)).1 ≡ buf
  ctr_apply_cancel c buf =
      let (u, e) = ctr_apply-stream c buf in
      let (v, f) = ctr_apply-stream c ((ctr_apply aes inc c buf).1) in
      sym (ap (λ (r : Run (List ℕ)). r.bytes) f)
      ∙ ap (λ b. (stream c b).bytes) (sym (ap (λ (r : Run (List ℕ)). r.bytes) e))
      ∙ run_cancel aes.encrypt_block inc c [] buf

  pub length-ctr_apply : (c buf : List ℕ) → length ((ctr_apply aes inc c buf).1) ≡ length buf
  length-ctr_apply c buf =
      let (u, e) = ctr_apply-stream c buf in
      ap (λ (r : Run (List ℕ)). length r.bytes) (sym e) ∙ length-run aes.encrypt_block inc c [] buf

abbrev pub weight : ℕ → ℕ
weight zero = 1
weight (suc n) = 2 ^ 8 * weight n

-- The number of a counter block, the first byte the highest.
abbrev pub counter_value : List ℕ → ℕ
counter_value [] = 0
counter_value (b ∷ r) = b * weight (length r) + counter_value r

inc_bytes_lem :
    (b : List ℕ)
    → IsBytes b
    → (length (inc_bytes b).0 ≡ length b)
      × (counter_value (inc_bytes b).0 + (if (inc_bytes b).1 then weight (length b) else 0)
          ≡ counter_value b + 1)
unfolding inc_bytes
inc_bytes_lem [] h = (refl, refl)
inc_bytes_lem (x ∷ b) (hx, h) =
    let (n, v) = inc_bytes_lem b h in
    let w = ap weight n in
    elim (Bool-cases (inc_bytes b).1) [
      | inl carry ↦
          let u : counter_value (inc_bytes b).0 + weight (length b) ≡ counter_value b + 1 =
            ap (λ t. counter_value (inc_bytes b).0 + (if t then weight (length b) else 0))
              (sym carry)
            ∙ v in
          elim (Bool-cases (leb (2 ^ 8) (x + 1))) [
            | inl over ↦
                let full : x ≡ 255 = ground arith in
                let wraps : (x + 1) % 256 ≡ 0 = omega arith in
                rw (carry, over, wraps, full) (ap suc n, omega (arith, u))
            | inr fits ↦
                let same : (x + 1) % 256 ≡ x + 1 = ground arith in
                rw (carry, fits, same, w) (ap suc n, omega (arith, u))
          ]
      | inr stop ↦
          let u : counter_value (inc_bytes b).0 + 0 ≡ counter_value b + 1 =
            ap (λ t. counter_value (inc_bytes b).0 + (if t then weight (length b) else 0))
              (sym stop)
            ∙ v in
          rw (stop, w) (ap suc n, omega (arith, u))
    ]

pub inc_bytes-IsBytes : (b : List ℕ) → IsBytes b → IsBytes (inc_bytes b).0
unfolding inc_bytes
inc_bytes-IsBytes [] h = tt
inc_bytes-IsBytes (x ∷ b) (hx, h) = elim (Bool-cases (inc_bytes b).1) [
  | inl carry ↦ rw carry (omega arith, inc_bytes-IsBytes b h)
  | inr stop ↦ rw stop (hx, inc_bytes-IsBytes b h)
]

counter_value-lt : (b : List ℕ) → IsBytes b → counter_value b < weight (length b)
counter_value-lt [] h = omega arith
counter_value-lt (x ∷ b) (hx, h) =
    let low = counter_value-lt b h in
    let top : x * weight (length b) ≤ 255 * weight (length b) = grind arith in omega arith

-- `inc128` of a block of 16 bytes is a block of 16 with the number of the first plus one, modulo
-- `2 ^ 128`.
pub inc128_lem :
    (b : List ℕ)
    → length b ≡ 16
    → IsBytes b
    → (length (inc128 b) ≡ 16) × (counter_value (inc128 b) ≡ (counter_value b + 1) % 2 ^ 128)
unfolding inc128
inc128_lem b n h =
    let (m, v) = inc_bytes_lem b h in
    let small = counter_value-lt b h in
    let w : weight (length b) ≡ 2 ^ 128 = ap weight n in
    (
      m ∙ n,
      elim (Bool-cases (inc_bytes b).1) [
        | inl carry ↦
            let u : counter_value (inc_bytes b).0 + weight (length b) ≡ counter_value b + 1 =
              ap (λ t. counter_value (inc_bytes b).0 + (if t then weight (length b) else 0))
                (sym carry)
              ∙ v in
            omega arith
        | inr stop ↦
            let u : counter_value (inc_bytes b).0 + 0 ≡ counter_value b + 1 =
              ap (λ t. counter_value (inc_bytes b).0 + (if t then weight (length b) else 0))
                (sym stop)
              ∙ v in
            omega (arith, counter_value-lt (inc_bytes b).0 (inc_bytes-IsBytes b h), ap weight m)
      ],
    )
