-- ===== src/Aes/Cmac/Stream.antt =====
-- CMAC of src/aes.rs, against the code of a whole message in NIST SP 800-38B.
use mcu_crypto_asm.Base.{
  ℕ, zero, suc, ◌+◌, ◌-◌, ◌*◌, ◌/◌, ◌<◌, ◌≤◌, ◌≡◌, ◌⊎◌, refl, ap, ap₂, sym, ◌∙◌, inl, inr, List, [],
  ◌∷◌, ◌++◌, append-nil, append_assoc, min, arith, Bool-cases, ◌==◌, ==_iff, true, false,
  if◌then◌else◌,
}
use mcu_crypto_asm.Base.{
  length, take, drop, length-append, length-take, length-drop, drop-drop, take_all,
  take-append-drop, replicate, copy_at, length-copy_at, take-copy_at,
}
use mcu_crypto_asm.Keystream.{xor_bytes}
use mcu_crypto_asm.Absorb.{joined, Partial, blocks}
use mcu_crypto_asm.Aes.{AesEncrypt, zero_block}
use mcu_crypto_asm.Aes.Cmac.{
  CmacState, with_buffer, cmac_double, new, mac_feed, flush, update_loop, update, finalize, reset,
}

module _ (aes : AesEncrypt) where
  abbrev chain : List ℕ → List ℕ → List ℕ
  chain = mac_feed aes

  -- A byte at a time; a full block waits for the next byte.
  unfoldable pub take_byte : List ℕ → List ℕ → ℕ → Partial (List ℕ)
  take_byte y p x =
      if length p == 16
      then record { state = chain y p; pending = x ∷ [] }
      else record { state = y; pending = p ++ (x ∷ []) }

  unfoldable pub lazy : List ℕ → List ℕ → List ℕ → Partial (List ℕ)
  lazy y p [] = record { state = y; pending = p }
  lazy y p (x ∷ msg) = let t = take_byte y p x in lazy t.state t.pending msg

  abbrev then_lazy : Partial (List ℕ) → List ℕ → Partial (List ℕ)
  then_lazy t msg = lazy t.state t.pending msg

  lazy-append : (y p a b : List ℕ) → lazy y p (a ++ b) ≡ then_lazy (lazy y p a) b
  unfolding lazy
  lazy-append y p [] b = refl
  lazy-append y p (x ∷ a) b = lazy-append (take_byte y p x).state (take_byte y p x).pending a b

  -- Bytes that fit wait.
  lazy-fits :
      (y p msg : List ℕ)
      → length p + length msg ≤ 16
      → lazy y p msg ≡ record { state = y; pending = p ++ msg }
  unfolding lazy take_byte
  lazy-fits y p [] fits = ap (λ t. record { state = y; pending = t }) (sym (append-nil p))
  lazy-fits y p (x ∷ msg) fits =
      let part : (length p == 16) ≡ false = ground (arith, fits) in
      rw part (
        lazy-fits y (p ++ (x ∷ [])) msg (omega (arith, length-append p (x ∷ []), fits))
        ∙ ap (λ t. record { state = y; pending = t }) (append_assoc p (x ∷ []) msg))

  -- A full block is chained when a byte follows.
  lazy-full :
      (y p : List ℕ) (x : ℕ) (msg : List ℕ)
      → length p ≡ 16
      → lazy y p (x ∷ msg) ≡ lazy (chain y p) [] (x ∷ msg)
  unfolding lazy take_byte
  lazy-full y p x msg full = rw ((==_iff (length p) 16).1 full)

  pub record IsCmac (s : CmacState) : Type 0 where
    pub size : length s.buffer ≡ 16
    pub within : s.buf_len ≤ 16

  unfoldable pub view : CmacState → Partial (List ℕ)
  view s = record { state = s.state; pending = take s.buf_len s.buffer }

  flush-lazy :
      (s : CmacState) (x : ℕ) (msg : List ℕ)
      → IsCmac s
      → IsCmac (flush aes s)
        × ((flush aes s).buf_len < 16)
        × ((flush aes s).k1 ≡ s.k1)
        × (then_lazy (view (flush aes s)) (x ∷ msg) ≡ then_lazy (view s) (x ∷ msg))
  unfolding flush view
  flush-lazy s x msg ok = elim (Bool-cases (s.buf_len == 16)) [
    | inl full ↦
        let whole = (==_iff s.buf_len 16).0 full in
        let content : take s.buf_len s.buffer ≡ s.buffer =
          take_all s.buf_len s.buffer (omega (arith, ok.size, whole)) in
        rw (full, flush)
          (
            record { size = ok.size; within = omega arith },
            omega arith,
            refl,
            ap (λ b. lazy (chain s.state b) [] (x ∷ msg)) (sym content)
                ∙ sym (
                    lazy-full s.state (take s.buf_len s.buffer) x msg
                      (ap length content ∙ ok.size)),
          )
    | inr part ↦ rw (part, flush) (ok, ground (arith, part, ok.within), refl, refl)
  ]

  update_loop-lazy :
      (turns : ℕ) (s : CmacState) (msg : List ℕ)
      → IsCmac s
      → length msg ≤ turns
      → IsCmac (update_loop aes turns s msg)
        × ((update_loop aes turns s msg).k1 ≡ s.k1)
        × (view (update_loop aes turns s msg) ≡ then_lazy (view s) msg)
  unfolding update_loop lazy view
  update_loop-lazy zero s [] ok enough = (ok, refl, refl)
  update_loop-lazy zero s (x ∷ msg) ok enough = absurd (omega arith)
  update_loop-lazy (suc turns) s [] ok enough = (ok, refl, refl)
  update_loop-lazy (suc turns) s (x ∷ msg) ok enough =
      let all = x ∷ msg in
      let (f_ok, room, f_key, same) = flush-lazy s x msg ok in
      let f = flush aes s in
      let n = min (16 - f.buf_len) (length all) in
      let part = take n all in
      let size : length part ≡ n = omega (arith, length-take n all) in
      let fits : f.buf_len + length part ≤ length f.buffer = omega (arith, f_ok.size, size, room) in
      let buffer = copy_at f.buf_len part f.buffer in
      let next = with_buffer f f.state buffer (f.buf_len + n) in
      let next_ok : IsCmac next = record {
        size = length-copy_at f.buf_len part f.buffer fits ∙ f_ok.size;
        within = omega (arith, room);
      } in
      let held : length (take f.buf_len f.buffer) ≡ f.buf_len =
        omega (arith, length-take f.buf_len f.buffer, f_ok.size, room) in
      let content : take (f.buf_len + n) buffer ≡ take f.buf_len f.buffer ++ part =
        ap (λ k. take (f.buf_len + k) buffer) (sym size)
        ∙ take-copy_at f.buf_len part f.buffer fits in
      let (last_ok, last_key, last) =
        update_loop-lazy turns next (drop n all) next_ok
          (omega (arith, length-drop n all, room, enough)) in
      (
        last_ok,
        last_key ∙ f_key,
        last
            ∙ ap (λ p. lazy f.state p (drop n all)) content
            ∙ ap (λ t. then_lazy t (drop n all))
                (sym (
                  lazy-fits f.state (take f.buf_len f.buffer) part
                    (omega (arith, held, size, room))))
            ∙ sym (lazy-append f.state (take f.buf_len f.buffer) part (drop n all))
            ∙ ap (lazy f.state (take f.buf_len f.buffer)) (take-append-drop n all)
            ∙ same,
      )

  -- The blocks before the last one, and the last one, which is empty only for the empty message.
  lazy-blocks :
      (k : ℕ) (y msg : List ℕ)
      → (k ≡ 0) ⊎ (k * 16 < length msg)
      → length msg ≤ k * 16 + 16
      → lazy y [] msg ≡ record { state = blocks chain 16 k y msg; pending = drop (k * 16) msg }
  unfolding blocks
  lazy-blocks zero y msg some few = lazy-fits y [] msg (omega (arith, few))
  lazy-blocks (suc k) y msg (inl e) few = absurd (omega (arith, e))
  lazy-blocks (suc k) y msg (inr some) few =
      let first : length (take 16 msg) ≡ 16 = omega (arith, length-take 16 msg, some) in
      let rest = drop 16 msg in
      let size : length rest ≡ length msg - 16 = length-drop 16 msg in
      ap (lazy y []) (sym (take-append-drop 16 msg))
      ∙ lazy-append y [] (take 16 msg) rest
      ∙ ap (λ t. then_lazy t rest) (lazy-fits y [] (take 16 msg) (omega (arith, first)))
      ∙ full rest (omega (arith, size, some)) first
      ∙ lazy-blocks k (chain y (take 16 msg)) rest (inr (omega (arith, size, some)))
          (omega (arith, size, few))
      ∙ ap (λ d. record { state = blocks chain 16 k (chain y (take 16 msg)) rest; pending = d })
          (drop-drop 16 (k * 16) msg ∙ ap (λ j. drop j msg) (omega arith))
    where
      full :
          (rest : List ℕ)
          → 0 < length rest
          → length (take 16 msg) ≡ 16
          → lazy y (take 16 msg) rest ≡ lazy (chain y (take 16 msg)) [] rest
      full [] h n = absurd (omega arith)
      full (x ∷ rest) h n = lazy-full y (take 16 msg) x rest n

  -- The number of blocks before the last one.
  abbrev before : List ℕ → ℕ
  before msg = (length msg - 1) / 16

  -- The code of a message: the last block is masked with one of two keys, and a part of a block is marked.
  unfoldable pub cmac : List ℕ → List ℕ
  cmac msg =
      let k1 = cmac_double (aes.encrypt_block zero_block) in
      let y = blocks chain 16 (before msg) zero_block msg in
      let last = drop (before msg * 16) msg in
      if length last == 16
      then aes.encrypt_block (xor_bytes (xor_bytes last k1) y)
      else aes.encrypt_block (
          xor_bytes (xor_bytes (last ++ (0x80 ∷ replicate (15 - length last) 0)) (cmac_double k1))
            y)

  -- The state has taken the message.
  pub record HasTaken (msg : List ℕ) (s : CmacState) : Type 0 where
    pub shape : IsCmac s
    pub key : s.k1 ≡ cmac_double (aes.encrypt_block zero_block)
    pub held : view s ≡ lazy zero_block [] msg

  new-HasTaken : HasTaken [] (new aes)
  unfolding new view lazy
  new-HasTaken = record {
    shape = record { size = refl; within = omega arith };
    key = refl;
    held = refl;
  }

  pub update-HasTaken :
      (msg d : List ℕ) (s : CmacState) → HasTaken msg s → HasTaken (msg ++ d) (update aes s d)
  unfolding update
  update-HasTaken msg d s h =
      let (shape, key, held) = update_loop-lazy (length d) s d h.shape (omega arith) in
      record {
        shape = shape;
        key = key ∙ h.key;
        held = held ∙ ap (λ t. then_lazy t d) h.held ∙ sym (lazy-append zero_block [] msg d);
      }

  pub reset-HasTaken : (msg : List ℕ) (s : CmacState) → HasTaken msg s → HasTaken [] (reset s)
  unfolding reset view lazy
  reset-HasTaken msg s h = record {
    shape = record { size = h.shape.size; within = omega arith };
    key = h.key;
    held = refl;
  }

  finalize-HasTaken : (msg : List ℕ) (s : CmacState) → HasTaken msg s → finalize aes s ≡ cmac msg
  unfolding finalize cmac view
  finalize-HasTaken msg s h =
      let k1 = cmac_double (aes.encrypt_block zero_block) in
      let y = blocks chain 16 (before msg) zero_block msg in
      let last = drop (before msg * 16) msg in
      let content : view s ≡ record { state = y; pending = last } =
        h.held ∙ lazy-blocks (before msg) zero_block msg (early msg) (omega arith) in
      let pending : take s.buf_len s.buffer ≡ last =
        ap (λ (t : Partial (List ℕ)). t.pending) content in
      let state : s.state ≡ y = ap (λ (t : Partial (List ℕ)). t.state) content in
      let count : s.buf_len ≡ length last =
        omega (
          arith,
          length-take s.buf_len s.buffer,
          h.shape.size,
          h.shape.within,
          ap length pending,
        ) in
      elim (Bool-cases (s.buf_len == 16)) [
        | inl full ↦
            let whole = (==_iff s.buf_len 16).0 full in
            let block : s.buffer ≡ last =
              sym (take_all s.buf_len s.buffer (omega (arith, h.shape.size, whole))) ∙ pending in
            let last_full : (length last == 16) ≡ true = ap (λ k. k == 16) (sym count) ∙ full in
            ap
              (λ b.
                if b
                then aes.encrypt_block (xor_bytes (xor_bytes s.buffer s.k1) s.state)
                else other s)
              full
            ∙ ap (λ b. aes.encrypt_block (xor_bytes (xor_bytes b s.k1) s.state)) block
            ∙ ap₂ (λ k t. aes.encrypt_block (xor_bytes (xor_bytes last k) t)) h.key state
            ∙ sym (
                ap
                  (λ b.
                    if b
                    then aes.encrypt_block (xor_bytes (xor_bytes last k1) y)
                    else marked last k1 y)
                  last_full)
        | inr part ↦
            let last_part : (length last == 16) ≡ false = ap (λ k. k == 16) (sym count) ∙ part in
            ap
              (λ b.
                if b
                then aes.encrypt_block (xor_bytes (xor_bytes s.buffer s.k1) s.state)
                else other s)
              part
            ∙ ap (λ k. marked_with (take s.buf_len s.buffer) k s.k1 s.state) count
            ∙ ap (λ p. marked_with p (length last) s.k1 s.state) pending
            ∙ ap₂ (λ k t. marked last k t) h.key state
            ∙ sym (
                ap
                  (λ b.
                    if b
                    then aes.encrypt_block (xor_bytes (xor_bytes last k1) y)
                    else marked last k1 y)
                  last_part)
      ]
    where
      marked_with : List ℕ → ℕ → List ℕ → List ℕ → List ℕ
      marked_with p n k t =
          aes.encrypt_block
            (xor_bytes (xor_bytes (p ++ (0x80 ∷ replicate (15 - n) 0)) (cmac_double k)) t)

      marked : List ℕ → List ℕ → List ℕ → List ℕ
      marked p k t = marked_with p (length p) k t

      other : CmacState → List ℕ
      other s = marked_with (take s.buf_len s.buffer) s.buf_len s.k1 s.state

      early : (msg : List ℕ) → (before msg ≡ 0) ⊎ (before msg * 16 < length msg)
      early [] = inl refl
      early (x ∷ msg) = inr (omega arith)

  unfoldable pub feed : CmacState → List (List ℕ) → CmacState
  feed s [] = s
  feed s (d ∷ pieces) = feed (update aes s d) pieces

  feed-HasTaken :
      (msg : List ℕ) (s : CmacState) (pieces : List (List ℕ))
      → HasTaken msg s
      → HasTaken (msg ++ joined pieces) (feed s pieces)
  unfolding feed joined
  feed-HasTaken msg s [] h = rw (append-nil msg) h
  feed-HasTaken msg s (d ∷ pieces) h =
      rw (sym (append_assoc msg d (joined pieces)))
        (feed-HasTaken (msg ++ d) (update aes s d) pieces (update-HasTaken msg d s h))

  -- CMAC's `finalize` after `update` on each piece of a message, from a new state or after other
  -- messages and a `reset`, is the code of the joined message: the blocks but the last are
  -- chained, and the last is masked with the doubled key when it is whole, and otherwise marked,
  -- padded and masked with the key doubled twice.
  pub feed-cmac :
      (earlier pieces : List (List ℕ))
      → (finalize aes (feed (new aes) pieces) ≡ cmac (joined pieces))
        × (finalize aes (feed (reset (feed (new aes) earlier)) pieces) ≡ cmac (joined pieces))
  feed-cmac earlier pieces =
      let again =
        reset-HasTaken (joined earlier) (feed (new aes) earlier)
          (feed-HasTaken [] (new aes) earlier new-HasTaken) in
      (
        finalize-HasTaken (joined pieces) (feed (new aes) pieces)
            (feed-HasTaken [] (new aes) pieces new-HasTaken),
        finalize-HasTaken (joined pieces) (feed (reset (feed (new aes) earlier)) pieces)
            (feed-HasTaken [] (reset (feed (new aes) earlier)) pieces again),
      )
