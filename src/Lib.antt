-- ===== src/Lib.antt =====
-- This library models mcu-crypto-asm, a cryptography library for microcontrollers, from its Rust
-- sources. Assembly routines replace the inner loops on some targets, with the contracts of the
-- portable Rust code; what is modelled here is the portable code.
--
-- Bignum is src/backend/portable.rs: arrays of 32-bit limbs as lists of natural numbers, the
-- lowest first, with wrap-around written out. Its children hold the values of arrays (Value), the
-- carry chains (Chains), the conditional subtraction (Reduce), sums and differences (AddSub),
-- halving (Halve), Montgomery multiplication (Mont, MulMont), what an array represents in
-- Montgomery form (Domain) and powers (Power).
--
-- Curve is src/params.rs with the structures of src/fe.rs and src/point.rs that hold its
-- constants; Curve.Moduli has for each modulus what Montgomery arithmetic needs of it. Fe is
-- src/fe.rs, over Bignum: the operations take the field's constants as their first argument, as
-- the code does. Scalar is src/scalar.rs, over Bignum, with the byte strings of Bytes. Point is
-- the projective part of src/point.rs, with the errors of src/ecdh.rs: Domain says what the code
-- needs of a curve, Signed writes elements as differences of numbers, Sum has the complete
-- addition, Affine the test for the curve, Parity and Decode the decoding. `N` is the field's
-- number of limbs there, and `add` is add_points. Point/Jacobian is PointJacobian: Half is the
-- halving that doubling needs, Double and Add the three operations, whose formulas Chord shares,
-- and Convert the changes of coordinates. Comb is its mul_base, with a bit outside the scalar
-- read as zero where the code stops. `add` is add_jacobian and `is_identity` at_infinity there.
--
-- Curve25519 is src/curve25519/portable.rs and x25519.rs: Limbs and Field are the operations on
-- five limbs, whose loops are written out, Packing the bytes, Inverse the addition chain, Clamp
-- the scalar's bits, Steps and Multiple the ladder. Arithmetic wraps as in a release build; the
-- bounds of Limbs show that none of it does.
--
-- Keystream is a reference for stream ciphers, which computes a byte of keystream at a time. Aes
-- is the modes of src/aes.rs, over the trait AesEncrypt, which is a record here: the key schedule
-- is not modelled, and a law says that a block of ciphertext has 16 bytes. Aes.Gcm uses Ghash,
-- which is src/ghash.rs with the portable multiplier; Aes.Ccm and Aes.Cmac are the other two
-- authenticated modes. Chacha20 is src/chacha20.rs and Poly1305 is src/poly1305.rs, whose child
-- Clamp is about the key.
--
-- Absorb is a reference for buffers that collect blocks, which takes a byte at a time. Sha512 is
-- src/sha512.rs with the portable compression: the context, whose three types in the code have
-- the same fields and are one record here, and Sha512.Core, which has `Sha512Core`, the functions
-- that use it and HMAC; its child Message says what a context knows of the message. A digest
-- length of HMAC above 64 makes the code panic and has no meaning here. Keccak is src/keccak.rs
-- with the portable permutation: Feed and Squeeze are about what a sponge takes and puts out, and
-- a failed assertion gives nothing. Rsa is src/rsa.rs in portable code, whose Montgomery
-- multiplication runs the loops of Bignum; Rsa.Exponent is the number of the exponent's bytes,
-- Rsa.Public the answers.
--
-- A buffer that a function changes in place is an argument and a part of the result. Loops over
-- limbs are structural recursion; loops over blocks recurse on their number. The loops of
-- apply_keystream recurse on fuel, for which the length of the data is enough, since each turn
-- takes a byte or more. The loop that pads in `Sha512Core::finalize` recurses on 128 turns, and
-- feeds fewer bytes than a block has. The loops of Aes.Ccm, Aes.Cmac and Keccak that take data
-- recurse on its length, and the loop that squeezes on one turn more than the bytes asked for,
-- since only its first turn may put out none.
--
-- Not modelled: the assembly, the multiplication of points but for that comb, the signatures,
-- Ed25519 and secp256k1, the post-quantum schemes, the block cipher itself with CBC and ECB, and
-- the facades in src/lib.rs and src/embassy.rs. Base holds what the other modules share, and
-- Examples the theorems at concrete inputs.
pub mod Absorb
pub mod Aes
pub mod Base
pub mod Bignum
pub mod Bytes
pub mod Chacha20
pub mod Curve
pub mod Curve25519
pub mod Examples
pub mod Fe
pub mod Ghash
pub mod Keccak
pub mod Keystream
pub mod Point
pub mod Poly1305
pub mod Rsa
pub mod Scalar
pub mod Sha512
