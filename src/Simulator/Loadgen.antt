-- ===== src/Simulator/Loadgen.antt =====
-- services/workload-simulator/loadgen/loadgen.py: the loop of the load generator, on the random rates
-- that it draws and on what becomes of its requests.
use hypertrace.Prelude.{String, List, [], ◌∷◌, ◌++◌}
use hypertrace.Float.{Float, max}

abbrev pub target : String
target = "http://victim:8080/work"

-- How `urlopen` ends: read, or by an exception that is passed over.
pub data Fetch : Type 0 where
  answered url_error timeout_error os_error : Fetch

-- The URLs that were asked for, and the seconds slept.
pub record Load (N : Type 0) : Type 0 where
  pub requested : List String
  pub slept : List N

module _ {N : Type 0} ⦃f : Float N⦄ where
  -- The interval of a rate that `random.gauss` draws.
  unfoldable pub interval : N → N
  unfolding max
  interval drawn = f.div (f.milli 1000) (max (f.milli 100) drawn)

  -- One round of `main`. No end of the request ends the loop.
  unfoldable pub round : N → Fetch → Load N → Load N
  round drawn _ s = record {
    requested = s.requested ++ target ∷ [];
    slept = s.slept ++ interval drawn ∷ [];
  }

  unfoldable pub rounds : List (N × Fetch) → Load N → Load N
  rounds [] s = s
  rounds ((drawn, fetch) ∷ later) s = rounds later (round drawn fetch s)
