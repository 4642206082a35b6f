-- ===== src/Point/Signed.antt =====
-- Field elements as differences of natural numbers, for formulas that subtract.
use mcu_crypto_asm.Base.{
  ℕ, ◌+◌, ◌-◌, ◌*◌, ◌%◌, ◌<◌, ◌≤◌, ◌≡◌, ◌↔◌, ap, sym, ◌∙◌, arith, Cong, Cong-add_mul,
  Cong-cancel_add, gap_mul, gap_add, gap_sub, gap_eq, gap_iff,
}
use mcu_crypto_asm.Bignum.Value.{value}
use mcu_crypto_asm.Curve.{Params}
use mcu_crypto_asm.Fe.{Fe, mul, sqr, add, sub}
use mcu_crypto_asm.Fe.Inverse.{IsField}
use mcu_crypto_asm.Fe.Laws.{Stands, arithmetic-Stands}
use mcu_crypto_asm.Point.Domain.{Stands-Cong, Stands-eq_iff}

module _ (f : Params) (h : IsField f) where
  abbrev prime : ℕ
  prime = value f.p

  -- The element `v` is `a - b` modulo the prime.
  pub record Means (a b : ℕ) (v : Fe) : Type 0 where
    pub number : ℕ
    pub stands : Stands f h number v
    pub same : Cong prime (number + b) a

  pub of_Stands : (x : ℕ) {v : Fe} → Stands f h x v → Means x 0 v
  of_Stands x s = record { number = x; stands = s; same = ap (λ t. t % prime) (omega arith) }

  pub to_Stands : {a : ℕ} {v : Fe} → Means a 0 v → Stands f h a v
  to_Stands {a} s = Stands-Cong f h s.number a (ap (λ t. t % prime) (omega arith) ∙ s.same) s.stands

  -- There is a number that added to `y` gives `x`.
  difference : (x y : ℕ) → (z : ℕ) × Cong prime (z + y) x
  difference x y =
      (x + (y * prime - y), ap (λ t. t % prime) (omega (arith, fits)) ∙ Cong-add_mul prime x y)
    where
      positive : 1 < value f.p
      positive = h.modulus.positive

      fits : y ≤ y * prime
      fits = grind arith

  pub Means-mul :
      {a b c d : ℕ} {v w : Fe}
      → Means a b v
      → Means c d w
      → Means (a * c + b * d) (a * d + b * c) (mul f v w)
  Means-mul {a} {b} {c} {d} {v} {w} s t =
      let x = s.number in
      let y = t.number in
      let (z, e) = difference x y in
      record {
        number = x * y;
        stands = (arithmetic-Stands f h x y z v w s.stands t.stands e).0;
        same = gap_mul prime a b c d x y s.same t.same;
      }

  pub Means-sqr : {a b : ℕ} {v : Fe} → Means a b v → Means (a * a + b * b) (a * b + b * a) (sqr f v)
  unfolding Means-mul
  Means-sqr {a} {b} {v} s =
      let x = s.number in
      let (z, e) = difference x x in
      let product = Means-mul s s in
      record {
        number = x * x;
        stands = (arithmetic-Stands f h x x z v v s.stands s.stands e).1;
        same = product.same;
      }

  pub Means-add :
      {a b c d : ℕ} {v w : Fe} → Means a b v → Means c d w → Means (a + c) (b + d) (add f v w)
  Means-add {a} {b} {c} {d} {v} {w} s t =
      let x = s.number in
      let y = t.number in
      let (z, e) = difference x y in
      record {
        number = x + y;
        stands = (arithmetic-Stands f h x y z v w s.stands t.stands e).2;
        same = gap_add prime a b c d x y s.same t.same;
      }

  pub Means-sub :
      {a b c d : ℕ} {v w : Fe} → Means a b v → Means c d w → Means (a + d) (b + c) (sub f v w)
  Means-sub {a} {b} {c} {d} {v} {w} s t =
      let x = s.number in
      let y = t.number in
      let (z, e) = difference x y in
      record {
        number = z;
        stands = (arithmetic-Stands f h x y z v w s.stands t.stands e).3;
        same = gap_sub prime a b c d x y z s.same t.same e;
      }

  -- Another way to write the same difference.
  pub Means-eq : {a b : ℕ} (a' b' : ℕ) {v : Fe} → a + b' ≡ a' + b → Means a b v → Means a' b' v
  Means-eq {a} {b} a' b' {v} e s =
      let x = s.number in
      record {
        number = x;
        stands = s.stands;
        same = gap_eq prime a b a' b' x (omega (arith, h.modulus.positive)) e s.same;
      }

  pub Means-Cong : {a b : ℕ} (a' : ℕ) {v : Fe} → Cong prime a a' → Means a b v → Means a' b v
  Means-Cong a' e s = record { number = s.number; stands = s.stands; same = s.same ∙ e }

  pub Means-product : (a b : ℕ) {v w : Fe} → Means a 0 v → Means b 0 w → Means (a * b) 0 (mul f v w)
  Means-product a b s t = Means-eq (a * b) 0 (omega arith) (Means-mul s t)

  pub Means-square : (a : ℕ) {v : Fe} → Means a 0 v → Means (a * a) 0 (sqr f v)
  Means-square a s = Means-eq (a * a) 0 (omega arith) (Means-sqr s)

  -- A number that with `b` gives `a` is what the element stands for.
  pub Means-number :
      {a b : ℕ} (x : ℕ) {v : Fe} → Cong prime (x + b) a → Means a b v → Stands f h x v
  Means-number {a} {b} x e s =
      Stands-Cong f h s.number x
        (Cong-cancel_add prime s.number x b (omega (arith, h.modulus.positive)) (s.same ∙ sym e))
        s.stands

  -- Elements are equal exactly when the differences are.
  pub Means-eq_iff :
      {a b c d : ℕ} {v w : Fe} → Means a b v → Means c d w → (v ≡ w) ↔ Cong prime (a + d) (c + b)
  Means-eq_iff {a} {b} {c} {d} {v} {w} s t =
      let x = s.number in
      let y = t.number in
      let same = Stands-eq_iff f h x y v w s.stands t.stands in
      let values = gap_iff prime a b c d x y (omega (arith, h.modulus.positive)) s.same t.same in
      ((λ e. values.0 (same.0 e)), (λ e. same.1 (values.1 e)))

  pub sqr-eq_iff :
      (x r : ℕ) (v w : Fe) → Stands f h x v → Stands f h r w → (sqr f v ≡ w) ↔ Cong prime (x * x) r
  sqr-eq_iff x r v w s t =
      let square = to_Stands (Means-eq (x * x) 0 (omega arith) (Means-sqr (of_Stands x s))) in
      Stands-eq_iff f h (x * x) r (sqr f v) w square t
