-- ===== src/Float.antt =====
-- What the services do with a Python `float`: the type and its operations are a parameter, since
-- the interpreter's floating point is not part of the repository. `milli n` is the literal
-- n / 1000, so `milli 850` stands for 0.85 and `milli 3000` for 3.0.
pub mod Laws
pub mod Decimal
use hypertrace.Prelude.{ℕ, Bool, if◌then◌else◌}

pub record Float (N : Type 0) : Type 0 where
  pub milli : ℕ → N
  pub of_nat : ℕ → N
  pub add : N → N → N
  pub sub : N → N → N
  pub mul : N → N → N
  pub div : N → N → N
  -- `x ** 0.5`
  pub sqrt : N → N
  -- `round(x, 3)`
  pub round3 : N → N
  pub lt : N → N → Bool
  pub le : N → N → Bool
  pub eq : N → N → Bool

module _ {N : Type 0} ⦃f : Float N⦄ where
  -- The built-in `max(a, b)` keeps its first argument unless the second is greater.
  unfoldable pub max : N → N → N
  max a b = if f.lt a b then b else a

  -- The built-in `min(a, b)` keeps its first argument unless the second is less.
  unfoldable pub min : N → N → N
  min a b = if f.lt b a then b else a
