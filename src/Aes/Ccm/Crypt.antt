-- ===== src/Aes/Ccm/Crypt.antt =====
-- The counter mode of CCM, src/aes.rs.
use mcu_crypto_asm.Base.{
  ℕ, zero, suc, ◌+◌, ◌-◌, ◌<◌, ◌≤◌, ◌≡◌, ◌⊎◌, inl, inr, refl, ap, ap₂, sym, ◌∙◌, List, [], ◌∷◌,
  ◌++◌, append-nil, arith, u64, min, ltb, Bool-cases,
}
use mcu_crypto_asm.Base.{
  length, take, drop, length-append, length-take, length-drop, take_all, drop_all, take-append,
  drop-append, take-append-drop,
}
use mcu_crypto_asm.Keystream.{xor_bytes, length-xor_bytes, xor_bytes_cancel}
use mcu_crypto_asm.Aes.{AesEncrypt}
use mcu_crypto_asm.Aes.Ccm.{ccm_ctr_block, crypt_loop, ccm_ctr_crypt}

module _ (aes : AesEncrypt) (q : ℕ) (nonce : List ℕ) where
  abbrev key : ℕ → List ℕ
  key ctr = aes.encrypt_block (ccm_ctr_block q nonce ctr)

  length-crypt_loop :
      (turns ctr : ℕ) (msg : List ℕ)
      → length msg ≤ turns
      → length (crypt_loop aes turns q nonce ctr msg) ≡ length msg
  unfolding crypt_loop
  length-crypt_loop zero ctr [] enough = refl
  length-crypt_loop zero ctr (x ∷ msg) enough = absurd (omega arith)
  length-crypt_loop (suc turns) ctr [] enough = refl
  length-crypt_loop (suc turns) ctr (x ∷ msg) enough =
      let rest = crypt_loop aes turns q nonce (u64 (ctr + 1)) (drop 16 (x ∷ msg)) in
      omega (
        arith,
        length-append (xor_bytes (take 16 (x ∷ msg)) (key ctr)) rest,
        length-xor_bytes (take 16 (x ∷ msg)) (key ctr),
        length-take 16 (x ∷ msg),
        length-drop 16 (x ∷ msg),
        length-crypt_loop turns (u64 (ctr + 1)) (drop 16 (x ∷ msg))
            (omega (arith, length-drop 16 (x ∷ msg), enough)),
      )

  -- One turn, on any bytes that are left.
  turn :
      (turns ctr : ℕ) (msg : List ℕ)
      → 0 < length msg
      → crypt_loop aes (suc turns) q nonce ctr msg
        ≡ xor_bytes (take 16 msg) (key ctr)
          ++ crypt_loop aes turns q nonce (u64 (ctr + 1)) (drop 16 msg)
  unfolding crypt_loop
  turn turns ctr [] some = absurd (omega arith)
  turn turns ctr (x ∷ msg) some = refl

  -- A block and what follows it, or a last block alone.
  cut :
      (b rest : List ℕ)
      → (length b ≡ 16) ⊎ ((length b ≤ 16) × (rest ≡ []))
      → (take 16 (b ++ rest) ≡ b) × (drop 16 (b ++ rest) ≡ rest)
  cut b rest (inl whole) = (take-append b rest 16 whole, drop-append b rest 16 whole)
  cut b rest (inr (part, e)) = (
    ap (λ r. take 16 (b ++ r)) e ∙ ap (take 16) (append-nil b) ∙ take_all 16 b part,
    ap (λ r. drop 16 (b ++ r)) e ∙ ap (drop 16) (append-nil b) ∙ drop_all 16 b part ∙ sym e,
  )

  empty : (d : List ℕ) → length d ≡ 0 → d ≡ []
  empty [] e = refl
  empty (x ∷ d) e = absurd (omega arith)

  crypt_loop_cancel :
      (turns ctr : ℕ) (msg : List ℕ)
      → length msg ≤ turns
      → crypt_loop aes turns q nonce ctr (crypt_loop aes turns q nonce ctr msg) ≡ msg
  unfolding crypt_loop
  crypt_loop_cancel zero ctr [] enough = refl
  crypt_loop_cancel zero ctr (x ∷ msg) enough = absurd (omega arith)
  crypt_loop_cancel (suc turns) ctr [] enough = refl
  crypt_loop_cancel (suc turns) ctr (x ∷ msg) enough =
      let all = x ∷ msg in
      let b = xor_bytes (take 16 all) (key ctr) in
      let size : length b ≡ length (take 16 all) = length-xor_bytes (take 16 all) (key ctr) in
      let left : length (drop 16 all) ≤ turns = omega (arith, length-drop 16 all, enough) in
      let rest = crypt_loop aes turns q nonce (u64 (ctr + 1)) (drop 16 all) in
      let rest_size = length-crypt_loop turns (u64 (ctr + 1)) (drop 16 all) left in
      let (head, tail) =
        cut b rest (shape b rest (size ∙ length-take 16 all) (rest_size ∙ length-drop 16 all)) in
      turn turns ctr (b ++ rest) (omega (arith, length-append b rest, size, length-take 16 all))
      ∙ ap₂ (λ s t. xor_bytes s (key ctr) ++ crypt_loop aes turns q nonce (u64 (ctr + 1)) t) head
          tail
      ∙ ap₂ ◌++◌ (xor_bytes_cancel (take 16 all) (key ctr))
          (crypt_loop_cancel turns (u64 (ctr + 1)) (drop 16 all) left)
      ∙ take-append-drop 16 all
    where
      shape :
          (b rest : List ℕ)
          → length b ≡ min 16 (length (x ∷ msg))
          → length rest ≡ length (x ∷ msg) - 16
          → (length b ≡ 16) ⊎ ((length b ≤ 16) × (rest ≡ []))
      shape b rest e f = elim (Bool-cases (ltb (length (x ∷ msg)) 16)) [
        | inl few ↦ inr (omega (arith, e), empty rest (ground (arith, f, few)))
        | inr many ↦ inl (ground (arith, e, many))
      ]

  pub length-ccm_ctr_crypt :
      (ctr : ℕ) (msg : List ℕ) → length (ccm_ctr_crypt aes q nonce ctr msg) ≡ length msg
  unfolding ccm_ctr_crypt
  length-ccm_ctr_crypt ctr msg = length-crypt_loop (length msg) ctr msg (omega arith)

  pub ccm_ctr_crypt_cancel :
      (ctr : ℕ) (msg : List ℕ)
      → ccm_ctr_crypt aes q nonce ctr (ccm_ctr_crypt aes q nonce ctr msg) ≡ msg
  unfolding ccm_ctr_crypt
  ccm_ctr_crypt_cancel ctr msg =
      ap (λ k. crypt_loop aes k q nonce ctr (crypt_loop aes (length msg) q nonce ctr msg))
        (length-crypt_loop (length msg) ctr msg (omega arith))
      ∙ crypt_loop_cancel (length msg) ctr msg (omega arith)
