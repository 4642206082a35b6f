-- ===== src/Base/Difference.antt =====
-- Residues as differences of natural numbers: `x` is `a - b` modulo `p`.
use Prim.Native.Nat.{ℕ, ◌+◌, ◌*◌, ◌%◌, ◌<◌}
use mathlib.Core.Path.{◌≡◌, refl, ap, sym, ◌∙◌}
use mathlib.Core.Logic.{◌↔◌}
use native.Mathlib.Omega.{arith}
use mcu_crypto_asm.Base.Modular.{Cong, Cong-add, Cong-mul, Cong-cancel_add}

module _ (p : ℕ) where
  abbrev pub IsDifference : ℕ → ℕ → ℕ → Type 0
  IsDifference a b x = Cong p (x + b) a

  pub gap_add :
      (a b c d x y : ℕ)
      → IsDifference a b x
      → IsDifference c d y
      → IsDifference (a + c) (b + d) (x + y)
  gap_add a b c d x y s t = ap (λ n. n % p) (omega arith) ∙ Cong-add p (x + b) a (y + d) c s t

  -- `z` is a difference of `x` and `y` when `z + y` is `x`.
  pub gap_sub :
      (a b c d x y z : ℕ)
      → IsDifference a b x
      → IsDifference c d y
      → Cong p (z + y) x
      → IsDifference (a + d) (b + c) z
  gap_sub a b c d x y z s t e =
      ap (λ n. n % p) (omega arith)
      ∙ Cong-add p (z + b) (z + b) c (y + d) refl (sym t)
      ∙ ap (λ n. n % p) (omega arith)
      ∙ Cong-add p (z + y) x (b + d) (b + d) e refl
      ∙ ap (λ n. n % p) (omega arith)
      ∙ Cong-add p (x + b) a d d s refl

  pub gap_mul :
      (a b c d x y : ℕ)
      → IsDifference a b x
      → IsDifference c d y
      → IsDifference (a * c + b * d) (a * d + b * c) (x * y)
  gap_mul a b c d x y s t =
      let ad = Cong-mul p a (x + b) d d (sym s) refl in
      let bc = Cong-mul p b b c (y + d) refl (sym t) in
      let ac = Cong-mul p (x + b) a (y + d) c s t in
      Cong-add p (x * y) (x * y) (a * d + b * c) ((x + b) * d + b * (y + d)) refl
        (Cong-add p (a * d) ((x + b) * d) (b * c) (b * (y + d)) ad bc)
      ∙ ap (λ n. n % p) (omega arith)
      ∙ Cong-add p ((x + b) * (y + d)) (a * c) (b * d) (b * d) ac refl

  -- Another way to write the same difference.
  pub gap_eq :
      (a b a' b' x : ℕ) → 0 < p → a + b' ≡ a' + b → IsDifference a b x → IsDifference a' b' x
  gap_eq a b a' b' x pos e s =
      Cong-cancel_add p (x + b') a' b pos
        (ap (λ n. n % p) (omega arith) ∙ Cong-add p (x + b) a b' b' s refl ∙ ap (λ n. n % p) e)

  -- Numbers are congruent exactly when the differences are.
  pub gap_iff :
      (a b c d x y : ℕ)
      → 0 < p
      → IsDifference a b x
      → IsDifference c d y
      → Cong p x y ↔ Cong p (a + d) (c + b)
  gap_iff a b c d x y pos s t =
      let left = Cong-add p (x + b) a d d s refl in
      let right = Cong-add p (y + d) c b b t refl in
      (
        (λ e.
            sym left
            ∙ ap (λ n. n % p) (omega arith)
            ∙ Cong-add p x y (b + d) (b + d) e refl
            ∙ ap (λ n. n % p) (omega arith)
            ∙ right),
        (λ e.
            Cong-cancel_add p x y (b + d) pos (
              ap (λ n. n % p) (omega arith)
              ∙ left
              ∙ e
              ∙ sym right
              ∙ ap (λ n. n % p) (omega arith))),
      )
