-- ===== src/Examples/Simulating.antt =====
-- The victim of the demo under some traffic, and a burn of it.
use hypertrace.Prelude.{
  ℕ, ◌+◌, ◌≡◌, refl, Bool, true, false, not, ◌&&◌, String, Option, none, some, List, [], ◌∷◌,
  count_if, str_eq, arith, if◌then◌else◌,
}
use mathlib.Core.Option
use hypertrace.Effects.{World, ok}
use hypertrace.Simulator.Victim.{Victim, Request, get, post, respond, serve, metrics_page}
use hypertrace.Simulator.Victim.Counting.{is_work, serve-metrics}
use hypertrace.Simulator.Victim.Burning.{
  Burnt, read, deadline_of, burn_cpu, burn_cpu-Burnt, burn_cpu-none,
}
use hypertrace.Float.{Float}
use hypertrace.Float.Decimal.{decimal}
use hypertrace.Examples.{world}

-- `float`, of one string.
abbrev to_float : String → Option ℕ
to_float s = if str_eq s "30" then some 30_000 else none

abbrev before : World (Unit {0}) (Victim ℕ)
before = world (record { requests_total = 7; burning = [] })

abbrev traffic : List Request
traffic =
    get "/work"
    ∷ get "/metrics"
    ∷ post "/burn" (("seconds", "many" ∷ []) ∷ [])
    ∷ post "/work" []
    ∷ get "/work"
    ∷ []

serve-metrics_example :
    (respond to_float (get "/metrics") (serve to_float traffic before)).0
    ≡ ok (metrics_page (before.own.requests_total + count_if is_work traffic))
serve-metrics_example = serve-metrics to_float traffic before

-- Two seconds, on a clock that moves by a microsecond with each reading.
burn_cpu-Burnt_example :
    Burnt {N = ℕ} (deadline_of 2_000 before) (read before) (burn_cpu {N = ℕ} 3_000_000 2_000 before)
burn_cpu-Burnt_example = burn_cpu-Burnt 2_000 before 2_000_000 3_000_000 refl (omega arith)

-- Numbers with one that is above all others, and is what it is added to.
abbrev lifted : (ℕ → ℕ → ℕ) → Option ℕ → Option ℕ → Option ℕ
lifted op (some a) (some b) = some (op a b)
lifted op _ _ = none

abbrev compared : (ℕ → ℕ → Bool) → Option ℕ → Option ℕ → Bool
compared test (some a) (some b) = test a b
compared test (some a) none = true
compared test none b = false

abbrev unbounded : Float (Option ℕ)
unbounded = record {
  milli = λ n. some (decimal.milli n);
  of_nat = λ n. some (decimal.of_nat n);
  add = lifted decimal.add;
  sub = lifted decimal.sub;
  mul = lifted decimal.mul;
  div = lifted decimal.div;
  sqrt = λ a. Option.map decimal.sqrt a;
  round3 = λ a. a;
  lt = compared decimal.lt;
  le = λ a b. not (compared decimal.lt b a);
  eq = λ a b. not (compared decimal.lt a b) && not (compared decimal.lt b a);
}

burn_cpu-none_example : burn_cpu ⦃f = unbounded⦄ 9 none before ≡ none
burn_cpu-none_example = burn_cpu-none ⦃f = unbounded⦄ none before 9 (λ n. refl)
