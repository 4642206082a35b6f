-- ===== src/Poly1305/Tag.antt =====
-- The tag of src/poly1305.rs, as a polynomial of the whole message.
use mcu_crypto_asm.Base.{
  ℕ, ◌+◌, ◌-◌, ◌*◌, ◌/◌, ◌%◌, ◌^◌, ◌≡◌, refl, ap, ap₂, sym, ◌∙◌, inl, inr, List, [], ◌∷◌, ◌++◌,
  append-nil, append_assoc, ltb, if◌then◌else◌, Bool-cases, Cong, Cong-add, Cong-mul,
}
use mcu_crypto_asm.Base.{length, take, drop, replicate, arith}
use mathlib.Core.Path.{subst}
use mcu_crypto_asm.Bytes.{IsBytes, IsBytes-drop, IsBytes-append, IsBytes-zeros}
use mcu_crypto_asm.Absorb.{
  joined, Partial, absorb, blocks-take, absorb-append, absorb-bulk, rest_of,
}
use mcu_crypto_asm.Poly1305.{
  Five, Poly1305, new, block_loop, update, finish_block, full_carry, select_reduced, finish,
  poly1305_auth,
}
use mcu_crypto_asm.Poly1305.Multiply.{number, IsReduced, IsKey}
use mcu_crypto_asm.Poly1305.Block.{block_number, process_block_lem}
use mcu_crypto_asm.Poly1305.Message.{IsRunning, new-IsRunning, horner, block_loop-horner}
use mcu_crypto_asm.Poly1305.Stream.{
  IsBuffered, IsSameKey, step, view, length-held, block_loop-blocks, update-absorb,
}
use mcu_crypto_asm.Poly1305.Finish.{
  full_carry-number, select_reduced-number, add_pad-number, le_number, pad_number,
}

-- The bytes after the whole blocks.
abbrev rest : List ℕ → List ℕ
rest msg = drop (length msg / 16 * 16) msg

abbrev marked : List ℕ → List ℕ
marked d = d ++ (1 ∷ replicate (15 - length d) 0)

-- The polynomial of a message at a key: a last part of a block is marked with a one.
unfoldable pub polynomial : ℕ → List ℕ → ℕ
polynomial r msg =
    let acc = horner (length msg / 16) r 0 msg in
    if ltb 0 (length (rest msg)) then (acc + block_number (marked (rest msg)) 0) * r else acc

-- The state has taken the message.
pub record HasTaken (key msg : List ℕ) (p : Poly1305) : Type 0 where
  pub shape : IsBuffered p
  pub key_kept : IsSameKey (new key) p
  pub held : view p ≡ absorb (step (new key).r (new key).s) 16 (new key).h [] msg

new-HasTaken : (key : List ℕ) → HasTaken key [] (new key)
unfolding new view absorb
new-HasTaken key = record {
  shape = record { size = refl; room = omega arith };
  key_kept = record { r = refl; s = refl; pad = refl };
  held = refl;
}

update-HasTaken :
    (key msg d : List ℕ) (p : Poly1305) → HasTaken key msg p → HasTaken key (msg ++ d) (update p d)
unfolding view
update-HasTaken key msg d p h =
    let (shape, same, seen) = update-absorb p d h.shape in
    record {
      shape = shape;
      key_kept = record {
        r = same.r ∙ h.key_kept.r;
        s = same.s ∙ h.key_kept.s;
        pad = same.pad ∙ h.key_kept.pad;
      };
      held =
          seen
          ∙ ap₂ (λ r s. rest_of (step r s) 16 (view p) d) h.key_kept.r h.key_kept.s
          ∙ ap (λ (t : Partial Five). rest_of (step (new key).r (new key).s) 16 t d) h.held
          ∙ sym (absorb-append (step (new key).r (new key).s) 16 (new key).h [] msg d);
    }

unfoldable pub feed : Poly1305 → List (List ℕ) → Poly1305
feed p [] = p
feed p (d ∷ pieces) = feed (update p d) pieces

feed-HasTaken :
    (key msg : List ℕ) (p : Poly1305) (pieces : List (List ℕ))
    → HasTaken key msg p
    → HasTaken key (msg ++ joined pieces) (feed p pieces)
unfolding feed joined
feed-HasTaken key msg p [] h = rw (append-nil msg) h
feed-HasTaken key msg p (d ∷ pieces) h =
    rw (sym (append_assoc msg d (joined pieces)))
      (feed-HasTaken key (msg ++ d) (update p d) pieces (update-HasTaken key msg d p h))

-- What is at hand before the end.
record IsBefore (key msg : List ℕ) (p : Poly1305) : Type 0 where
  running : IsRunning p
  pending : take p.leftover p.buffer ≡ rest msg
  count : p.leftover ≡ length (rest msg)
  value : Cong (2 ^ 130 - 5) (number p.h) (horner (length msg / 16) (number (new key).r) 0 msg)

HasTaken-IsBefore :
    (key msg : List ℕ) (p : Poly1305) → IsBytes msg → HasTaken key msg p → IsBefore key msg p
unfolding view
HasTaken-IsBefore key msg p bytes h =
    let k = length msg / 16 in
    let start = new key in
    let (begun, zero_acc) = new-IsRunning key in
    let content =
      h.held ∙ absorb-bulk (step start.r start.s) 16 start.h [] msg (omega arith) (inl refl) in
    let acc : p.h ≡ (block_loop k start msg).h =
      ap (λ (t : Partial Five). t.state) content
      ∙ blocks-take (step start.r start.s) 16 k start.h msg
      ∙ sym (ap (λ (q : Poly1305). q.h) (block_loop-blocks k start msg)) in
    let pending = ap (λ (t : Partial Five). t.pending) content in
    let (running, value) = block_loop-horner k start msg begun bytes in
    record {
      running = record {
        accumulator = subst IsReduced (sym acc) running.accumulator;
        key =
            subst (λ r. IsKey r p.s) (sym h.key_kept.r)
              (subst (λ s. IsKey start.r s) (sym h.key_kept.s) begun.key);
      };
      pending = pending;
      count = sym (length-held p h.shape) ∙ ap length pending;
      value =
          ap (λ v. number v % (2 ^ 130 - 5)) acc
          ∙ value
          ∙ ap (λ a. horner k (number start.r) a msg % (2 ^ 130 - 5)) zero_acc;
    }

-- The last part of a block is added.
finish_block-polynomial :
    (key msg : List ℕ) (p : Poly1305)
    → IsBytes msg
    → HasTaken key msg p
    → IsReduced (finish_block p).h
      × Cong (2 ^ 130 - 5) (number (finish_block p).h) (polynomial (number (new key).r) msg)
unfolding finish_block polynomial
finish_block-polynomial key msg p bytes h =
    let b = HasTaken-IsBefore key msg p bytes h in
    let r = number (new key).r in
    let acc = horner (length msg / 16) r 0 msg in
    let last = marked (rest msg) in
    let test : ltb 0 p.leftover ≡ ltb 0 (length (rest msg)) = ap (ltb 0) b.count in
    let block : take p.leftover p.buffer ++ (1 ∷ replicate (15 - p.leftover) 0) ≡ last =
      ap₂ (λ d n. d ++ (1 ∷ replicate (15 - n) 0)) b.pending b.count in
    elim (Bool-cases (ltb 0 (length (rest msg)))) [
      | inr none ↦ rw (test, none, finish_block, polynomial) (b.running.accumulator, b.value)
      | inl some ↦
          let last_bytes : IsBytes last =
            IsBytes-append (rest msg) (1 ∷ replicate (15 - length (rest msg)) 0)
              (IsBytes-drop (length msg / 16 * 16) msg bytes)
              (omega arith, IsBytes-zeros (15 - length (rest msg))) in
          let (reduced, value) =
            process_block_lem p last 0 b.running.accumulator b.running.key last_bytes (inl refl) in
          rw (test, some, block, finish_block, polynomial)
            (
              reduced,
              value
                  ∙ Cong-mul (2 ^ 130 - 5) (number p.h + block_number last 0)
                      (acc + block_number last 0) (number p.r) r
                      (Cong-add (2 ^ 130 - 5) (number p.h) acc (block_number last 0)
                        (block_number last 0) b.value refl)
                      (ap (λ v. number v % (2 ^ 130 - 5)) h.key_kept.r),
            )
    ]

-- Of every key and of bytes in any pieces, the number of the tag that `finish` gives after
-- `update` on each piece is, modulo `2 ^ 128`, the polynomial of the joined message at the
-- clamped key, reduced modulo `2 ^ 130 - 5`, plus the pad of the key.
pub finish-polynomial :
    (key : List ℕ) (pieces : List (List ℕ))
    → IsBytes (joined pieces)
    → le_number (finish (feed (new key) pieces))
      ≡ (polynomial (number (new key).r) (joined pieces) % (2 ^ 130 - 5) + pad_number (new key).pad)
        % 2 ^ 128
unfolding finish
finish-polynomial key pieces bytes =
    let p = feed (new key) pieces in
    let msg = joined pieces in
    let taken : HasTaken key msg p = feed-HasTaken key [] (new key) pieces (new-HasTaken key) in
    let (reduced, value) = finish_block-polynomial key msg p bytes taken in
    let (canonical, same) = full_carry-number (finish_block p).h reduced in
    let (least, residue) = select_reduced-number (full_carry (finish_block p).h) canonical in
    add_pad-number (select_reduced (full_carry (finish_block p).h)) p.pad least
    ∙ ap₂ (λ v w. (v + pad_number w) % 2 ^ 128) (residue ∙ same ∙ value) taken.key_kept.pad

pub poly1305_auth-polynomial :
    (key msg : List ℕ)
    → IsBytes msg
    → le_number (poly1305_auth key msg)
      ≡ (polynomial (number (new key).r) msg % (2 ^ 130 - 5) + pad_number (new key).pad) % 2 ^ 128
unfolding poly1305_auth feed joined
poly1305_auth-polynomial key msg bytes =
    let all : msg ++ [] ≡ msg = append-nil msg in
    finish-polynomial key (msg ∷ []) (subst IsBytes (sym all) bytes)
    ∙ ap
        (λ m.
          (polynomial (number (new key).r) m % (2 ^ 130 - 5) + pad_number (new key).pad) % 2 ^ 128)
        all
