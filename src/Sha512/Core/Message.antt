-- ===== src/Sha512/Core/Message.antt =====
-- A context of src/sha512.rs and the message that it has taken: the digests as functions of the message.
use mcu_crypto_asm.Base.{
  ℕ, ◌-◌, ◌*◌, ◌/◌, ◌%◌, ◌^◌, ◌≡◌, refl, ap, sym, ◌∙◌, inl, List, [], ◌∷◌, ◌++◌, append_assoc,
  append-nil,
}
use mcu_crypto_asm.Base.{
  length, take, length-append, length-drop, arith, replicate, length-replicate,
}
use mcu_crypto_asm.Absorb.{
  joined, Partial, absorb, absorb-append, absorb-blocks, absorb-bulk, rest_of,
}
use mcu_crypto_asm.Sha512.Constants.{sha512_iv, sha384_iv, sha512_224_iv, sha512_256_iv}
use mcu_crypto_asm.Sha512.{
  Sha512, new, compress_block, update, to_be128, digest_bytes, finalize, sha512, sha384,
}
use mcu_crypto_asm.Sha512.Core.{core_update, core_finalize, sha512_224, sha512_256}
use mcu_crypto_asm.Sha512.Core.Padding.{core_update-eq}
use mcu_crypto_asm.Sha512.Core.Digest.{
  hash, digest_of, ending, length-to_be128, finalize-absorb, core_finalize-finalize,
}
use mcu_crypto_asm.Sha512.Stream.{
  IsStream, view, total_len-update, update-absorb, length-held, new-IsStream,
}

-- The context has taken the message, from an initial value on.
pub record IsAfter (iv msg : List ℕ) (h : Sha512) : Type 0 where
  pub stream : IsStream h
  pub held : view h ≡ absorb compress_block 128 iv [] msg
  pub counted : h.total_len ≡ length msg % 2 ^ 128

pub new-IsAfter : (iv : List ℕ) → IsAfter iv [] (new iv)
unfolding new view absorb
new-IsAfter iv = record { stream = new-IsStream iv; held = refl; counted = refl }

pub update-IsAfter :
    (iv msg d : List ℕ) (h : Sha512) → IsAfter iv msg h → IsAfter iv (msg ++ d) (update h d)
unfolding view
update-IsAfter iv msg d h after =
    let (ok, seen) = update-absorb h d after.stream in
    record {
      stream = ok;
      held =
          seen
          ∙ ap (λ t. rest_of compress_block 128 t d) after.held
          ∙ sym (absorb-append compress_block 128 iv [] msg d);
      counted = total_len-update h d ∙ omega (arith, after.counted, length-append msg d);
    }

pub core_update-IsAfter :
    (iv msg d : List ℕ) (h : Sha512) → IsAfter iv msg h → IsAfter iv (msg ++ d) (core_update h d)
core_update-IsAfter iv msg d h after = rw (core_update-eq h d) (update-IsAfter iv msg d h after)

-- The bytes that are at hand.
buf_len-IsAfter : (iv msg : List ℕ) (h : Sha512) → IsAfter iv msg h → h.buf_len ≡ length msg % 128
unfolding view
buf_len-IsAfter iv msg h after =
    sym (length-held h after.stream)
    ∙ ap (λ (t : Partial (List ℕ)). length t.pending)
        (after.held ∙ absorb-bulk compress_block 128 iv [] msg (omega arith) (inl refl))
    ∙ length-drop (length msg / 128 * 128) msg
    ∙ omega arith

whole_blocks :
    (msg : List ℕ)
    → (let all = msg ++ ending (length msg % 128) (length msg) in
        length all ≡ length all / 128 * 128)
unfolding ending
whole_blocks msg =
    let k = (239 - length msg % 128) % 128 in
    let bits = to_be128 (length msg * 8 % 2 ^ 128) in
    omega (
      arith,
      length-append msg (0x80 ∷ replicate k 0 ++ bits),
      length-append (0x80 ∷ replicate k 0) bits,
      length-replicate {A = ℕ} k 0,
      length-to_be128 (length msg * 8 % 2 ^ 128),
    )

pub finalize-IsAfter : (iv msg : List ℕ) (h : Sha512) → IsAfter iv msg h → finalize h ≡ hash iv msg
unfolding view digest_of ending
finalize-IsAfter iv msg h after =
    let tail = ending (length msg % 128) (length msg) in
    let same : ending h.buf_len h.total_len ≡ tail =
      ap (λ b. ending b h.total_len) (buf_len-IsAfter iv msg h after)
      ∙ ap (λ n. 0x80 ∷ replicate ((239 - length msg % 128) % 128) 0 ++ to_be128 n)
          (omega (arith, after.counted)) in
    finalize-absorb h after.stream
    ∙ ap (λ d. digest_bytes (rest_of compress_block 128 (view h) d).state) same
    ∙ ap (λ t. digest_bytes (rest_of compress_block 128 t tail).state) after.held
    ∙ ap (λ (t : Partial (List ℕ)). digest_bytes t.state)
        (sym (absorb-append compress_block 128 iv [] msg tail)
          ∙ absorb-blocks compress_block 128 (length (msg ++ tail) / 128) iv (msg ++ tail)
              (omega arith) (whole_blocks msg))

pub core_finalize-IsAfter :
    (iv msg : List ℕ) (h : Sha512) → IsAfter iv msg h → core_finalize h ≡ hash iv msg
core_finalize-IsAfter iv msg h after =
    core_finalize-finalize h after.stream ∙ finalize-IsAfter iv msg h after

pub core_hash : (iv msg : List ℕ) → core_finalize (core_update (new iv) msg) ≡ hash iv msg
core_hash iv msg =
    core_finalize-IsAfter iv msg (core_update (new iv) msg)
      (core_update-IsAfter iv [] msg (new iv) (new-IsAfter iv))

-- Of every message the four one-shot functions give the digest, cut to its size, of the message
-- with its mark, zeros and length in bits, block by block from the initial value of the function.
pub digests :
    (msg : List ℕ)
    → (sha512 msg ≡ hash sha512_iv msg)
      × (sha384 msg ≡ take 48 (hash sha384_iv msg))
      × (sha512_224 msg ≡ take 28 (hash sha512_224_iv msg))
      × (sha512_256 msg ≡ take 32 (hash sha512_256_iv msg))
unfolding sha512 sha384 sha512_224 sha512_256
digests msg = (
  direct sha512_iv,
  ap (take 48) (direct sha384_iv),
  ap (take 28) (core_hash sha512_224_iv msg),
  ap (take 32) (core_hash sha512_256_iv msg),
)
  where
    direct : (iv : List ℕ) → finalize (update (new iv) msg) ≡ hash iv msg
    direct iv =
        finalize-IsAfter iv msg (update (new iv) msg)
          (update-IsAfter iv [] msg (new iv) (new-IsAfter iv))

-- Pieces of a message, one after the other.
unfoldable pub feed : Sha512 → List (List ℕ) → Sha512
feed h [] = h
feed h (d ∷ pieces) = feed (update h d) pieces

feed-IsAfter :
    (iv msg : List ℕ) (h : Sha512) (pieces : List (List ℕ))
    → IsAfter iv msg h
    → IsAfter iv (msg ++ joined pieces) (feed h pieces)
unfolding feed joined
feed-IsAfter iv msg h [] after = rw (append-nil msg) after
feed-IsAfter iv msg h (d ∷ pieces) after =
    rw (sym (append_assoc msg d (joined pieces)))
      (feed-IsAfter iv (msg ++ d) (update h d) pieces (update-IsAfter iv msg d h after))

-- The digest of a message fed to `Sha512::update` in any pieces is that of the whole message.
pub feed-finalize :
    (iv : List ℕ) (pieces : List (List ℕ))
    → finalize (feed (new iv) pieces) ≡ hash iv (joined pieces)
feed-finalize iv pieces =
    finalize-IsAfter iv (joined pieces) (feed (new iv) pieces)
      (feed-IsAfter iv [] (new iv) pieces (new-IsAfter iv))
