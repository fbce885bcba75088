-- ===== src/Float/Decimal.antt =====
-- A model of the laws: fixed point with three places, in thousandths, that saturates at zero.
use Prim.Native.Nat.{ℕ, ◌+◌, ◌-◌, ◌*◌, ◌/◌, ◌≤◌, ◌<◌}
use hypertrace.Prelude.{◌≡◌, refl, List, [], ◌∷◌, if◌then◌else◌, arith, ltb, leb, ◌==◌}
use hypertrace.Float.{Float}
use hypertrace.Float.Laws.{IsOrdered}

-- The integer part of the square root of a number below 2 ^ 20, bit by bit.
abbrev root_from : List ℕ → ℕ → ℕ → ℕ
root_from [] n root = root
root_from (bit ∷ bits) n root =
    let wider = root + bit in root_from bits n (if leb (wider * wider) n then wider else root)

abbrev root_bits : List ℕ
root_bits = 512 ∷ 256 ∷ 128 ∷ 64 ∷ 32 ∷ 16 ∷ 8 ∷ 4 ∷ 2 ∷ 1 ∷ []

instance abbrev pub decimal : Float ℕ
decimal = record {
  milli = λ n. n;
  of_nat = λ n. n * 1000;
  add = λ a b. a + b;
  sub = λ a b. a - b;
  mul = λ a b. a * b / 1000;
  div = λ a b. a * 1000 / b;
  sqrt = λ a. root_from root_bits (a * 1000) 0;
  round3 = λ a. a;
  lt = ltb;
  le = leb;
  eq = ◌==◌;
}

mul_mono_decimal : (k a b : ℕ) → a ≤ b → k * a / 1000 ≤ k * b / 1000
mul_mono_decimal k a b h = grind arith

div_mono_decimal : (k a b : ℕ) → a ≤ b → a * 1000 / k ≤ b * 1000 / k
div_mono_decimal k a b h = grind arith

zero-div_decimal : (k : ℕ) → 0 < k → 0 * 1000 / k ≡ 0
zero-div_decimal k h = grind arith

pub decimal-IsOrdered : IsOrdered ℕ
decimal-IsOrdered = record {
  le_refl = λ a. ground arith;
  le_trans = λ a b c p q. ground arith;
  le_total = λ a b p. ground arith;
  lt-eq-not-le = λ a b. ground arith;
  milli_mono = λ m n p. ground arith;
  milli_strict = λ m n p. ground arith;
  add_mono = λ a b c d p q. ground arith;
  sub_mono = λ a b c d p q. ground arith;
  sub_self = λ a. omega arith;
  mul_mono = λ k a b p. ground (arith, mul_mono_decimal k a b);
  mul-one = λ k. omega arith;
  mul-zero = λ k. omega arith;
  div_mono = λ k a b p q. ground (arith, div_mono_decimal k a b);
  zero-div = zero-div_decimal;
  round3_mono = λ a b p. p;
  round3_sum = λ a b c d p. refl;
}
