-- ===== src/Keccak.antt =====
-- src/keccak.rs: the sponge of SHA-3 and SHAKE with the portable permutation. The state is a list of
-- twenty-five 64-bit lanes; a failed assertion gives nothing.
pub mod Feed
pub mod Squeeze
pub mod Digest
use mcu_crypto_asm.Base.{
  ℕ, zero, suc, ◌+◌, ◌-◌, ◌*◌, ◌/◌, ◌%◌, ◌^◌, List, [], ◌∷◌, ◌++◌, Bool, true, false, not, ◌&&◌,
  min, Option, some, none,
}
use mcu_crypto_asm.Base.{
  ltb, leb, ◌==◌, if◌then◌else◌, get_or, set, take, drop, length, replicate, u64, bit_and, bit_or,
  bit_xor,
}

rc : List ℕ
rc =
    0x0000000000000001 ∷ 0x0000000000008082 ∷ 0x800000000000808a ∷ 0x8000000080008000
    ∷ 0x000000000000808b ∷ 0x0000000080000001 ∷ 0x8000000080008081 ∷ 0x8000000000008009
    ∷ 0x000000000000008a ∷ 0x0000000000000088 ∷ 0x0000000080008009 ∷ 0x000000008000000a
    ∷ 0x000000008000808b ∷ 0x800000000000008b ∷ 0x8000000000008089 ∷ 0x8000000000008003
    ∷ 0x8000000000008002 ∷ 0x8000000000000080 ∷ 0x000000000000800a ∷ 0x800000008000000a
    ∷ 0x8000000080008081 ∷ 0x8000000000008080 ∷ 0x0000000080000001 ∷ 0x8000000080008008 ∷ []

rho : List ℕ
rho =
    0 ∷ 1 ∷ 62 ∷ 28 ∷ 27 ∷ 36 ∷ 44 ∷ 6 ∷ 55 ∷ 20 ∷ 3 ∷ 10 ∷ 43 ∷ 25 ∷ 39 ∷ 41 ∷ 45 ∷ 15 ∷ 21 ∷ 8
    ∷ 18 ∷ 2 ∷ 61 ∷ 56 ∷ 14 ∷ []

pi : List ℕ
pi =
    0 ∷ 10 ∷ 20 ∷ 5 ∷ 15 ∷ 16 ∷ 1 ∷ 11 ∷ 21 ∷ 6 ∷ 7 ∷ 17 ∷ 2 ∷ 12 ∷ 22 ∷ 23 ∷ 8 ∷ 18 ∷ 3 ∷ 13 ∷ 14
    ∷ 24 ∷ 9 ∷ 19 ∷ 4 ∷ []

abbrev lane : List ℕ → ℕ → ℕ
lane a i = get_or a i 0

-- A loop that writes the entries from the index `i` on.
tabulate : ℕ → ℕ → (ℕ → ℕ) → List ℕ
tabulate zero i f = []
tabulate (suc n) i f = f i ∷ tabulate n (i + 1) f

rotate_left : ℕ → ℕ → ℕ
rotate_left n x = bit_or (u64 (x * 2 ^ n)) (x / 2 ^ (64 - n))

theta : List ℕ → List ℕ
theta a =
    let c = tabulate 5 0 (λ x.
      bit_xor
        (bit_xor (bit_xor (bit_xor (lane a x) (lane a (x + 5))) (lane a (x + 10)))
          (lane a (x + 15)))
        (lane a (x + 20))) in
    let d =
      tabulate 5 0 (λ x. bit_xor (lane c ((x + 4) % 5)) (rotate_left 1 (lane c ((x + 1) % 5)))) in
    tabulate 25 0 (λ i. bit_xor (lane a i) (lane d (i % 5)))

-- `b[PI[i]] = a[i].rotate_left(RHO[i])`
rho_pi : List ℕ → List ℕ → List ℕ → List ℕ → List ℕ
rho_pi (p ∷ ps) (r ∷ rs) (x ∷ a) b = rho_pi ps rs a (set b p (rotate_left r x))
rho_pi _ _ _ b = b

chi : List ℕ → List ℕ
chi b = tabulate 25 0 (λ i.
    bit_xor (lane b i)
      (bit_and (2 ^ 64 - 1 - lane b ((i + 1) % 5 + i / 5 * 5)) (lane b ((i + 2) % 5 + i / 5 * 5))))

round : List ℕ → ℕ → List ℕ
round a c = let a = chi (rho_pi pi rho (theta a) (replicate 25 0)) in set a 0 (bit_xor (lane a 0) c)

rounds : List ℕ → List ℕ → List ℕ
rounds [] a = a
rounds (c ∷ cs) a = rounds cs (round a c)

pub permute_24 : List ℕ → List ℕ
permute_24 a = rounds rc a

pub permute_12 : List ℕ → List ℕ
permute_12 a = rounds (drop 12 rc) a

pub add_byte : List ℕ → ℕ → ℕ → List ℕ
add_byte state b pos =
    set state (pos / 8) (bit_xor (lane state (pos / 8)) (u64 (b * 2 ^ (pos % 8 * 8))))

pub add_bytes : List ℕ → List ℕ → ℕ → List ℕ
add_bytes state [] offset = state
add_bytes state (b ∷ msg) offset = add_bytes (add_byte state b offset) msg (offset + 1)

pub extract_byte : List ℕ → ℕ → ℕ
extract_byte state pos = lane state (pos / 8) / 2 ^ (pos % 8 * 8) % 2 ^ 8

-- As many bytes as the second argument says.
pub extract_bytes : List ℕ → ℕ → ℕ → List ℕ
extract_bytes state zero offset = []
extract_bytes state (suc n) offset = extract_byte state offset ∷ extract_bytes state n (offset + 1)

pub record KeccakSponge : Type 0 where
  pub state : List ℕ
  pub rate : ℕ
  pub domain_sep : ℕ
  pub pos : ℕ
  pub squeezing : Bool

pub new : ℕ → ℕ → Option KeccakSponge
new rate domain_sep =
    if leb rate 200 && (rate % 8 == 0)
    then some (record {
      state = replicate 25 0;
      rate = rate;
      domain_sep = domain_sep;
      pos = 0;
      squeezing = false;
    })
    else none

abbrev pub moved : KeccakSponge → List ℕ → ℕ → KeccakSponge
moved s state pos = record {
  state = state;
  rate = s.rate;
  domain_sep = s.domain_sep;
  pos = pos;
  squeezing = s.squeezing;
}

-- `if self.pos == self.rate`
pub permute_full : KeccakSponge → KeccakSponge
permute_full s = if s.pos == s.rate then moved s (permute_24 s.state) 0 else s

-- `while !input.is_empty()`, with a bound on the turns.
pub absorb_loop : ℕ → KeccakSponge → List ℕ → KeccakSponge
absorb_loop zero s input = s
absorb_loop (suc n) s [] = s
absorb_loop (suc n) s (x ∷ input) =
    let k = min (s.rate - s.pos) (length (x ∷ input)) in
    let s = permute_full (moved s (add_bytes s.state (take k (x ∷ input)) s.pos) (s.pos + k)) in
    absorb_loop n s (drop k (x ∷ input))

pub absorb : KeccakSponge → List ℕ → Option KeccakSponge
absorb s input = if s.squeezing then none else some (absorb_loop (length input) s input)

-- The padding of `finalize_and_squeeze`.
pub apply_padding : KeccakSponge → KeccakSponge
apply_padding s =
    let state =
      if s.pos == s.rate - 1
      then add_byte s.state (bit_or s.domain_sep 0x80) s.pos
      else add_byte (add_byte s.state s.domain_sep s.pos) 0x80 (s.rate - 1) in
    record {
      state = permute_24 state;
      rate = s.rate;
      domain_sep = s.domain_sep;
      pos = 0;
      squeezing = true;
    }

-- `if !self.squeezing`
pub pad : KeccakSponge → KeccakSponge
pad s = if s.squeezing then s else apply_padding s

-- `while out_idx < out.len()`, with a bound on the turns: `n` bytes are missing.
pub squeeze_loop : ℕ → KeccakSponge → ℕ → List ℕ × KeccakSponge
squeeze_loop zero s n = ([], s)
squeeze_loop (suc turns) s zero = ([], s)
squeeze_loop (suc turns) s (suc n) =
    let k = min (s.rate - s.pos) (suc n) in
    let chunk = extract_bytes s.state k s.pos in
    let after = moved s s.state (s.pos + k) in
    let next = if ltb 0 (suc n - k) then permute_full after else after in
    let (rest, last) = squeeze_loop turns next (suc n - k) in (chunk ++ rest, last)

pub finalize_and_squeeze : KeccakSponge → ℕ → List ℕ × KeccakSponge
finalize_and_squeeze s n = squeeze_loop (n + 1) (pad s) n

-- The one-shot functions: a sponge, one message, one output.
pub then_absorb : List ℕ → Option KeccakSponge → Option KeccakSponge
then_absorb msg none = none
then_absorb msg (some s) = absorb s msg

pub then_squeeze : ℕ → Option KeccakSponge → Option (List ℕ)
then_squeeze n none = none
then_squeeze n (some s) = some (finalize_and_squeeze s n).0

pub sponge_hash : ℕ → ℕ → List ℕ → ℕ → Option (List ℕ)
sponge_hash rate domain_sep msg n = then_squeeze n (then_absorb msg (new rate domain_sep))

pub sha3_256 : List ℕ → Option (List ℕ)
sha3_256 msg = sponge_hash 136 0x06 msg 32

pub sha3_512 : List ℕ → Option (List ℕ)
sha3_512 msg = sponge_hash 72 0x06 msg 64

-- With the length of the output.
pub shake128 : List ℕ → ℕ → Option (List ℕ)
shake128 msg n = sponge_hash 168 0x1f msg n

pub shake256 : List ℕ → ℕ → Option (List ℕ)
shake256 msg n = sponge_hash 136 0x1f msg n
