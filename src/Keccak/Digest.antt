-- ===== src/Keccak/Digest.antt =====
-- The one-shot functions of src/keccak.rs.
use mcu_crypto_asm.Base.{ℕ, ◌<◌, ◌≡◌, refl, ap, ◌∙◌, List, replicate, arith, some, false}
use mcu_crypto_asm.Keccak.{
  KeccakSponge, new, pad, sponge_hash, then_absorb, then_squeeze, sha3_256, sha3_512, shake128,
  shake256,
}
use mcu_crypto_asm.Keccak.Feed.{IsAbsorbing, feed, absorb-feed}
use mcu_crypto_asm.Keccak.Squeeze.{stream, finalize_and_squeeze-stream}

-- A sponge that has taken nothing.
unfoldable pub fresh : ℕ → ℕ → KeccakSponge
fresh rate domain_sep = record {
  state = replicate 25 0;
  rate = rate;
  domain_sep = domain_sep;
  pos = 0;
  squeezing = false;
}

-- The bytes that a sponge puts out for a message.
unfoldable pub output : ℕ → ℕ → List ℕ → ℕ → List ℕ
output rate domain_sep msg n = (stream (pad (feed (fresh rate domain_sep) msg)) n).0

sponge_hash-output :
    (rate domain_sep : ℕ) (msg : List ℕ) (n : ℕ)
    → 0 < rate
    → new rate domain_sep ≡ some (fresh rate domain_sep)
    → sponge_hash rate domain_sep msg n ≡ some (output rate domain_sep msg n)
unfolding sponge_hash then_absorb then_squeeze output fresh
sponge_hash-output rate domain_sep msg n positive made =
    let begin : IsAbsorbing (fresh rate domain_sep) = record { room = positive; taking = refl } in
    let (taken, ok) = absorb-feed (fresh rate domain_sep) msg begin in
    let last = feed (fresh rate domain_sep) msg in
    ap (λ t. then_squeeze n (then_absorb msg t)) made
    ∙ ap (then_squeeze n) taken
    ∙ ap (λ (r : List ℕ × KeccakSponge). some r.0)
        (finalize_and_squeeze-stream last n
          (record { within = omega (arith, ok.room); positive = omega (arith, ok.room) }))

-- Of every message `sha3_256`, `sha3_512`, `shake128` and `shake256` answer, with the stream of
-- the padded sponge that has taken the message a byte at a time, for their rates and domains.
pub one_shots :
    (msg : List ℕ) (n : ℕ)
    → (sha3_256 msg ≡ some (output 136 0x06 msg 32))
      × (sha3_512 msg ≡ some (output 72 0x06 msg 64))
      × (shake128 msg n ≡ some (output 168 0x1f msg n))
      × (shake256 msg n ≡ some (output 136 0x1f msg n))
unfolding sha3_256 sha3_512 shake128 shake256 new fresh
one_shots msg n = (
  sponge_hash-output 136 0x06 msg 32 (omega arith) refl,
  sponge_hash-output 72 0x06 msg 64 (omega arith) refl,
  sponge_hash-output 168 0x1f msg n (omega arith) refl,
  sponge_hash-output 136 0x1f msg n (omega arith) refl,
)
