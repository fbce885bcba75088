-- ===== src/Float/Laws.antt =====
-- The documented behaviour of floating point that the theorems rely on: away from NaN the order is
-- total, the operations are monotone because rounding is, and `round(x, 3)` undoes the error of
-- a sum of three-place decimals.
use hypertrace.Prelude.{ℕ, ◌+◌, ◌≤◌, ◌<◌, ◌≡◌, true, false, not, arith}
use hypertrace.Float.{Float, max, min}

infix 4 ◌≼◌
abbrev pub ◌≼◌ : {N : Type 0} ⦃f : Float N⦄ → N → N → Type 0
◌≼◌ ⦃f⦄ a b = f.le a b ≡ true

-- The values of `N` are the finite floats: NaN and the infinities are left out.
pub record IsOrdered (N : Type 0) ⦃f : Float N⦄ : Type 0 where
  pub le_refl : (a : N) → a ≼ a
  pub le_trans : (a b c : N) → a ≼ b → b ≼ c → a ≼ c
  pub le_total : (a b : N) → f.le a b ≡ false → b ≼ a
  pub lt-eq-not-le : (a b : N) → f.lt a b ≡ not (f.le b a)
  pub milli_mono : (m n : ℕ) → m ≤ n → f.milli m ≼ f.milli n
  pub milli_strict : (m n : ℕ) → m < n → f.le (f.milli n) (f.milli m) ≡ false
  pub add_mono : (a b c d : N) → a ≼ b → c ≼ d → f.add a c ≼ f.add b d
  pub sub_mono : (a b c d : N) → a ≼ b → c ≼ d → f.sub a d ≼ f.sub b c
  pub sub_self : (a : N) → f.sub a a ≡ f.milli 0
  pub mul_mono : (k : ℕ) (a b : N) → a ≼ b → f.mul (f.milli k) a ≼ f.mul (f.milli k) b
  pub mul-one : (k : ℕ) → f.mul (f.milli k) (f.milli 1000) ≡ f.milli k
  pub mul-zero : (k : ℕ) → f.mul (f.milli k) (f.milli 0) ≡ f.milli 0
  pub div_mono : (k : ℕ) (a b : N) → 0 < k → a ≼ b → f.div a (f.milli k) ≼ f.div b (f.milli k)
  pub zero-div : (k : ℕ) → 0 < k → f.div (f.milli 0) (f.milli k) ≡ f.milli 0
  pub round3_mono : (a b : N) → a ≼ b → f.round3 a ≼ f.round3 b
  pub round3_sum :
      (a b c d : ℕ)
      → a + b + c + d ≤ 1000
      → f.round3 (f.add (f.add (f.add (f.milli a) (f.milli b)) (f.milli c)) (f.milli d))
        ≡ f.milli (a + b + c + d)

module _ {N : Type 0} ⦃f : Float N⦄ (o : IsOrdered N) where
  pub lt→le : (a b : N) → f.lt a b ≡ true → a ≼ b
  lt→le a b h = ground (arith, o.lt-eq-not-le a b, o.le_total b a)

  pub le-max_left : (a b : N) → a ≼ max a b
  unfolding max
  le-max_left a b = ground (arith, o.le_refl a, lt→le a b)

  pub le-max_right : (a b : N) → b ≼ max a b
  unfolding max
  le-max_right a b = ground (arith, o.le_refl b, o.lt-eq-not-le a b)

  pub max-le : (a b c : N) → a ≼ c → b ≼ c → max a b ≼ c
  unfolding max
  max-le a b c p q = ground arith

  pub min-le_left : (a b : N) → min a b ≼ a
  unfolding min
  min-le_left a b = ground (arith, o.le_refl a, lt→le b a)

  pub min-le_right : (a b : N) → min a b ≼ b
  unfolding min
  min-le_right a b = ground (arith, o.le_refl b, o.lt-eq-not-le b a)

  pub le-min : (a b c : N) → c ≼ a → c ≼ b → c ≼ min a b
  unfolding min
  le-min a b c p q = ground arith

  -- A difference that is not positive.
  pub sub-le-zero : (a b : N) → a ≼ b → f.sub a b ≼ f.milli 0
  sub-le-zero a b h =
      let step : f.sub a b ≼ f.sub b b = o.sub_mono a b b b h (o.le_refl b) in
      ground (arith, o.sub_self b)
