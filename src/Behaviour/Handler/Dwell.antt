-- ===== src/Behaviour/Handler/Dwell.antt =====
-- The dwell of the detector over a series of readings of one service, each assessed against the
-- profile that the one before left.
use hypertrace.Prelude.{
  ℕ, ◌+◌, String, ◌≡◌, refl, ap, Bool, true, false, ◌&&◌, Option, get_or, List, [], ◌∷◌, map, Dict,
  insert, lookup-insert_self, leb, arith, if◌then◌else◌,
}
use mathlib.Core.Path.{ap₂}
use hypertrace.Float.{Float}
use hypertrace.Behaviour.Stats.{Cell, empty_cell}
use hypertrace.Behaviour.Detection.{dwell_samples}
use hypertrace.Behaviour.Baselines.{cell_at, flag_state_key, flag_cell}
use hypertrace.Behaviour.Handler.{Reading, assess}

-- What the assessment reads of a message and of the memory.
pub record Sample (N : Type 0) : Type 0 where
  pub bucket : String
  pub value : N
  pub cpu_z : N
  pub traffic_z : Option N

-- Each reading flags when it and the two before it qualified; `a` and `b` are those before the first.
abbrev pub three_in_a_row : Bool → Bool → List Bool → List Bool
three_in_a_row a b [] = []
three_in_a_row a b (q ∷ qs) = (a && (b && q)) ∷ three_in_a_row b q qs

-- Only a reading that qualifies asks for the count.
only_qualifying :
    (q : Bool) (k : ℕ)
    → (q && leb dwell_samples (if q then k + 1 else 0)) ≡ (q && leb dwell_samples (k + 1))
only_qualifying true k = refl
only_qualifying false k = refl

module _ {N : Type 0} ⦃f : Float N⦄ where
  -- The stored count of qualifying readings in a row.
  abbrev pub stored : Dict (Cell N) → ℕ
  stored profile = get_or (cell_at flag_state_key profile).consecutive_qualifying 0

  unfoldable assess_all : Dict (Cell N) → List (Sample N) → List (Reading N)
  assess_all profile [] = []
  assess_all profile (s ∷ rest) =
      let r = assess profile s.bucket s.value s.cpu_z s.traffic_z in r ∷ assess_all r.profile rest

  abbrev pub assessed : Dict (Cell N) → Sample N → Reading N
  assessed profile s = assess profile s.bucket s.value s.cpu_z s.traffic_z

  stored_after :
      (suppressed consecutive : ℕ) (d : Dict (Cell N))
      → stored (insert flag_state_key (flag_cell suppressed consecutive) d) ≡ consecutive
  unfolding cell_at
  stored_after suppressed consecutive d =
      ap (λ c. get_or (get_or c empty_cell).consecutive_qualifying 0)
        (lookup-insert_self flag_state_key (flag_cell suppressed consecutive) d)

  assess-stored :
      (profile : Dict (Cell N)) (s : Sample N)
      → stored (assessed profile s).profile
        ≡ (if (assessed profile s).verdict.qualifies then stored profile + 1 else 0)
  unfolding assess
  assess-stored profile s = stored_after _ _ _

  assess-should_flag :
      (profile : Dict (Cell N)) (s : Sample N)
      → (assessed profile s).should_flag
        ≡ ((assessed profile s).verdict.qualifies && leb dwell_samples (stored profile + 1))
  unfolding assess
  assess-should_flag profile s =
      only_qualifying (assessed profile s).verdict.qualifies (stored profile)

  -- With the last two verdicts before a profile, which its stored count agrees with.
  pub record Agrees (profile : Dict (Cell N)) (a b : Bool) : Type 0 where
    pub one : b ≡ leb 1 (stored profile)
    pub two : (a && b) ≡ leb 2 (stored profile)

  pub assessed-Agrees :
      (profile : Dict (Cell N)) (s : Sample N) (a b : Bool)
      → Agrees profile a b
      → Agrees (assessed profile s).profile b (assessed profile s).verdict.qualifies
  assessed-Agrees profile s a b h = record {
    one = ground (arith, assess-stored profile s, h.one, h.two);
    two = ground (arith, assess-stored profile s, h.one, h.two);
  }

  pub assess-flag :
      (profile : Dict (Cell N)) (s : Sample N) (a b : Bool)
      → Agrees profile a b
      → (assessed profile s).should_flag ≡ (a && (b && (assessed profile s).verdict.qualifies))
  assess-flag profile s a b h = ground (arith, assess-should_flag profile s, h.one, h.two)

  flags_agree :
      (profile : Dict (Cell N)) (samples : List (Sample N)) (a b : Bool)
      → Agrees profile a b
      → map (λ r. r.should_flag) (assess_all profile samples)
        ≡ three_in_a_row a b (map (λ r. r.verdict.qualifies) (assess_all profile samples))
  unfolding assess_all
  flags_agree profile [] a b h = refl
  flags_agree profile (s ∷ rest) a b h =
      ap₂ (λ x xs. x ∷ xs) (assess-flag profile s a b h)
        (flags_agree (assessed profile s).profile rest b (assessed profile s).verdict.qualifies
          (assessed-Agrees profile s a b h))

  -- Over a series of readings of one service, from a profile that has counted no qualifying reading
  -- in a row, the detector flags exactly those readings that qualify and whose two predecessors
  -- qualified as well.
  assess_all-dwell :
      (profile : Dict (Cell N)) (samples : List (Sample N))
      → stored profile ≡ 0
      → map (λ r. r.should_flag) (assess_all profile samples)
        ≡ three_in_a_row false false (map (λ r. r.verdict.qualifies) (assess_all profile samples))
  assess_all-dwell profile samples h =
      flags_agree profile samples false false (record { one = ground arith; two = ground arith })
