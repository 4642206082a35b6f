-- ===== src/Curve.antt =====
-- src/fe.rs and src/point.rs: the constants of a field and of a curve, and src/params.rs: those of
-- P-256 and P-384. Limbs are little-endian.
pub mod Constants
pub mod Moduli
use mcu_crypto_asm.Base.{ℕ, List}

-- `fe::Params`
pub record Params : Type 0 where
  pub n : ℕ
  pub p : List ℕ
  pub n0inv : ℕ
  pub r2 : List ℕ
  pub one : List ℕ

-- `point::CurveParams`
pub record CurveParams : Type 0 where
  pub field : Params
  pub b_mont : List ℕ
  pub gx_mont : List ℕ
  pub gy_mont : List ℕ
  pub order : List ℕ
  pub order_n0inv : ℕ
  pub order_r2 : List ℕ
  pub order_r : List ℕ
