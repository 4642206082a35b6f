-- ===== src/Aes/Ccm/Mac.antt =====
-- The CBC-MAC of CCM, src/aes.rs, against the chain over whole blocks.
use mcu_crypto_asm.Base.{
  ℕ, zero, suc, ◌+◌, ◌-◌, ◌*◌, ◌/◌, ◌%◌, ◌<◌, ◌≤◌, ◌≡◌, refl, ap, sym, ◌∙◌, inl, inr, List, [], ◌∷◌,
  ◌++◌, min, ltb, arith, Bool-cases, ◌==◌, ==_iff,
}
use mcu_crypto_asm.Base.{
  length, take, drop, length-append, length-take, length-drop, take_all, length-replicate,
  replicate, copy_at, length-copy_at, take-copy_at,
}
use mathlib.Core.Path.{subst}
use mcu_crypto_asm.Absorb.{
  Partial, settle, settle-full, absorb, blocks, absorb-append, absorb-settle, absorb-split,
  absorb-blocks, absorb-bulk, rest_of,
}
use mcu_crypto_asm.Aes.{AesEncrypt}
use mcu_crypto_asm.Aes.Ccm.{CcmMac, feed_block, feed_full, feed_loop, feed, feed_padded}

module _ (aes : AesEncrypt) where
  -- The started block is not full.
  pub record IsMac (m : CcmMac) : Type 0 where
    pub size : length m.blk ≡ 16
    pub room : m.len < 16

  unfoldable pub view : CcmMac → Partial (List ℕ)
  view m = record { state = m.y; pending = take m.len m.blk }

  abbrev pub chain : List ℕ → List ℕ → List ℕ
  chain = feed_block aes

  abbrev filled : CcmMac → List ℕ → CcmMac
  filled m part =
      feed_full aes (record { y = m.y; blk = copy_at m.len part m.blk; len = m.len + length part })

  length-held : (m : CcmMac) → IsMac m → length (take m.len m.blk) ≡ m.len
  length-held m ok = omega (arith, length-take m.len m.blk, ok.size, ok.room)

  feed_full-settle :
      (m : CcmMac) (part : List ℕ)
      → IsMac m
      → m.len + length part ≤ 16
      → IsMac (filled m part)
        × (view (filled m part) ≡ settle chain 16 m.y (take m.len m.blk ++ part))
  unfolding feed_full settle view
  feed_full-settle m part ok fits =
      let blk = copy_at m.len part m.blk in
      let room : m.len + length part ≤ length m.blk = omega (arith, ok.size, fits) in
      let size : length blk ≡ 16 = length-copy_at m.len part m.blk room ∙ ok.size in
      let count : length (take m.len m.blk ++ part) ≡ m.len + length part =
        omega (arith, length-append (take m.len m.blk) part, length-held m ok) in
      let content : take (m.len + length part) blk ≡ take m.len m.blk ++ part =
        take-copy_at m.len part m.blk room in
      elim (Bool-cases (m.len + length part == 16)) [
        | inl full ↦
            let whole = (==_iff (m.len + length part) 16).0 full in
            let block : blk ≡ take m.len m.blk ++ part =
              sym (take_all (m.len + length part) blk (omega (arith, size, whole))) ∙ content in
            rw (count, full, feed_full, settle)
              (
                record { size = size; room = omega arith },
                ap (λ b. record { state = chain m.y b; pending = [] }) block,
              )
        | inr part_of ↦
            rw (count, part_of, feed_full, settle)
              (
                record { size = size; room = ground (arith, fits, part_of) },
                ap (λ p. record { state = m.y; pending = p }) content,
              )
      ]

  feed_loop-absorb :
      (turns : ℕ) (m : CcmMac) (msg : List ℕ)
      → IsMac m
      → length msg ≤ turns
      → IsMac (feed_loop aes turns m msg)
        × (view (feed_loop aes turns m msg) ≡ absorb chain 16 m.y (take m.len m.blk) msg)
  unfolding feed_loop absorb view
  feed_loop-absorb zero m [] ok enough = (ok, refl)
  feed_loop-absorb zero m (x ∷ msg) ok enough = absurd (omega arith)
  feed_loop-absorb (suc turns) m [] ok enough = (ok, refl)
  feed_loop-absorb (suc turns) m (x ∷ msg) ok enough =
      let all = x ∷ msg in
      let n = min (16 - m.len) (length all) in
      let size : length (take n all) ≡ n = omega (arith, length-take n all) in
      let (next_ok, seen) = feed_full-settle m (take n all) ok (omega (arith, size, ok.room)) in
      let next = filled m (take n all) in
      let (last_ok, last) =
        feed_loop-absorb turns next (drop n all) next_ok
          (omega (arith, length-drop n all, ok.room, enough)) in
      let held = length-held m ok in
      let turn : feed_full aes
            (record { y = m.y; blk = copy_at m.len (take n all) m.blk; len = m.len + n })
          ≡ next =
        ap
          (λ k.
            feed_full aes
              (record { y = m.y; blk = copy_at m.len (take n all) m.blk; len = m.len + k }))
          (sym size) in
      subst
        (λ t.
          IsMac (feed_loop aes turns t (drop n all))
          × (view (feed_loop aes turns t (drop n all))
              ≡ absorb chain 16 m.y (take m.len m.blk) all))
        (sym turn)
        (
          last_ok,
          last
              ∙ ap (λ (t : Partial (List ℕ)). rest_of chain 16 t (drop n all)) seen
              ∙ sym (
                  absorb-split chain 16 m.y (take m.len m.blk) all n (omega (arith, held, ok.room))
                    (omega (arith, held, ok.room))),
        )

  pub feed-absorb :
      (m : CcmMac) (msg : List ℕ)
      → IsMac m
      → IsMac (feed aes m msg)
        × (view (feed aes m msg) ≡ absorb chain 16 m.y (take m.len m.blk) msg)
  unfolding feed
  feed-absorb m msg ok = feed_loop-absorb (length msg) m msg ok (omega arith)

  -- Zeros up to whole blocks.
  unfoldable pub padded : List ℕ → List ℕ
  padded d = d ++ replicate ((16 - length d % 16) % 16) 0

  unfoldable pub chained : List ℕ → List ℕ → List ℕ
  chained y d = blocks chain 16 (length d / 16) y d

  whole : (d : List ℕ) → length (padded d) ≡ length (padded d) / 16 * 16
  unfolding padded
  whole d =
      let k = (16 - length d % 16) % 16 in
      omega (arith, length-append d (replicate k 0), length-replicate {A = ℕ} k 0)

  -- Filling up the last block.
  feed_padded-absorb :
      (m : CcmMac)
      → IsMac m
      → IsMac (feed_padded aes m)
        × ((feed_padded aes m).len ≡ 0)
        × ((feed_padded aes m).y
            ≡ (absorb chain 16 m.y (take m.len m.blk) (replicate ((16 - m.len) % 16) 0)).state)
  unfolding feed_padded absorb
  feed_padded-absorb m ok = elim (Bool-cases (ltb 0 m.len)) [
    | inl some ↦
        let p = take m.len m.blk in
        let z : List ℕ = replicate (16 - m.len) 0 in
        let held = length-held m ok in
        let zeros : (16 - m.len) % 16 ≡ 16 - m.len = ground (arith, some, ok.room) in
        let count : length z ≡ 16 - m.len = length-replicate {A = ℕ} (16 - m.len) 0 in
        let full : length (p ++ z) ≡ 16 = omega (arith, length-append p z, held, count, ok.room) in
        rw (some, feed_padded)
          (
            record { size = full; room = omega arith },
            refl,
            ap (λ (t : Partial (List ℕ)). t.state)
                (sym (
                  ap (λ k. absorb chain 16 m.y p (replicate k 0)) zeros
                  ∙ absorb-settle chain 16 m.y p z (omega (arith, held, ok.room))
                      (omega (arith, held, count, ok.room))
                  ∙ settle-full chain 16 m.y (p ++ z) full)),
          )
    | inr none ↦
        let empty : m.len ≡ 0 = ground (arith, none) in
        let zeros : (16 - m.len) % 16 ≡ 0 = omega (arith, empty) in
        rw (none, feed_padded)
          (
            ok,
            empty,
            sym (ap (λ k. (absorb chain 16 m.y (take m.len m.blk) (replicate k 0)).state) zeros),
          )
  ]

  -- Bytes taken from a block's start on, and then padded, are chained as whole blocks.
  pub ended :
      (y msg : List ℕ) (fed : CcmMac)
      → IsMac fed
      → view fed ≡ absorb chain 16 y [] msg
      → IsMac (feed_padded aes fed)
        × ((feed_padded aes fed).len ≡ 0)
        × ((feed_padded aes fed).y ≡ chained y (padded msg))
  unfolding view padded chained
  ended y msg fed fed_ok seen =
      let (last_ok, done, last) = feed_padded-absorb fed fed_ok in
      let held : fed.len ≡ length msg % 16 =
        sym (length-held fed fed_ok)
        ∙ ap (λ (t : Partial (List ℕ)). length t.pending)
            (seen ∙ absorb-bulk chain 16 y [] msg (omega arith) (inl refl))
        ∙ length-drop (length msg / 16 * 16) msg
        ∙ omega arith in
      let z = λ (k : ℕ). replicate {A = ℕ} k 0 in
      (
        last_ok,
        done,
        last
            ∙ ap (λ k. (rest_of chain 16 (view fed) (z ((16 - k) % 16))).state) held
            ∙ ap
                (λ (t : Partial (List ℕ)).
                  (rest_of chain 16 t (z ((16 - length msg % 16) % 16))).state)
                seen
            ∙ ap (λ (t : Partial (List ℕ)). t.state)
                (sym (absorb-append chain 16 y [] msg (z ((16 - length msg % 16) % 16)))
                  ∙ absorb-blocks chain 16 (length (padded msg) / 16) y (padded msg) (omega arith)
                      (whole msg)),
      )

  -- From a block's start on.
  pub feed-fresh :
      (m : CcmMac) (msg : List ℕ)
      → IsMac m
      → m.len ≡ 0
      → IsMac (feed aes m msg) × (view (feed aes m msg) ≡ absorb chain 16 m.y [] msg)
  feed-fresh m msg ok start =
      let (fed_ok, seen) = feed-absorb m msg ok in
      (fed_ok, seen ∙ ap (λ k. absorb chain 16 m.y (take k m.blk) msg) start)

  pub feed-feed :
      (m : CcmMac) (a b : List ℕ)
      → IsMac m
      → IsMac (feed aes (feed aes m a) b)
        × (view (feed aes (feed aes m a) b) ≡ view (feed aes m (a ++ b)))
  unfolding view
  feed-feed m a b ok =
      let (a_ok, a_seen) = feed-absorb m a ok in
      let (b_ok, b_seen) = feed-absorb (feed aes m a) b a_ok in
      (
        b_ok,
        b_seen
            ∙ ap (λ (t : Partial (List ℕ)). rest_of chain 16 t b) a_seen
            ∙ sym (absorb-append chain 16 m.y (take m.len m.blk) a b)
            ∙ sym (feed-absorb m (a ++ b) ok).1,
      )
