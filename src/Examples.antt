-- ===== src/Examples.antt =====
-- The theorems at concrete inputs.
mod Hashes
mod Sponges
mod Modes
mod Powers
mod Fields
mod Scalars
mod Ciphers
mod Curves
mod Jacobian
mod Streams
