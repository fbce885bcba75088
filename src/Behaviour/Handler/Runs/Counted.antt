-- ===== src/Behaviour/Handler/Runs/Counted.antt =====
-- The anomalies that a run of messages adds for a service.
use hypertrace.Prelude.{
  ◌+◌, String, ◌≡◌, refl, sym, ap, ◌∙◌, Bool, true, false, ◌&&◌, Option, none, some, List, [], ◌∷◌,
  lookup, count_if, str_eq, eq_iff, arith, if◌then◌else◌, Bool-cases, inl, inr,
}
use mathlib.Core.Path.{subst}
use hypertrace.Float.{Float}
use hypertrace.Effects.{Result, ok}
use hypertrace.Behaviour.Detection.{bucket_key}
use hypertrace.Behaviour.Baselines.{handle_traffic}
use hypertrace.Behaviour.Handler.{
  CostMessage, Reading, Field, absent, null, given, cpu_value, handle_cost,
}
use hypertrace.Behaviour.Handler.Flagging.{State}
use hypertrace.Behaviour.Handler.Outcome.{
  reading_of, score_of, Handled, rejected, assessed_as, handle_cost-Handled,
}
use hypertrace.Behaviour.Handler.Dwell.{
  Sample, three_in_a_row, stored, Agrees, assessed-Agrees, assess-flag,
}
use hypertrace.Behaviour.Handler.Runs.{
  Event, costs, rates, run, step, reading_at, noted, verdicts, flags_of, stored_for, total,
  IsUntouched,
}
use hypertrace.Behaviour.Handler.Runs.Untouched.{
  handle_traffic-IsUntouched, handle_cost-IsUntouched, settled-flags_of,
}

module _ {N : Type 0} ⦃f : Float N⦄ where
  -- What a message of the service leaves, after two verdicts that the stored count agrees with.
  abbrev After : String → Bool → Bool → Option (Reading N) → State N → State N → Type 0
  After service a b none w w' = IsUntouched service w w'
  After service a b (some r) w w' =
      Agrees (stored_for service w') b r.verdict.qualifies
      × (flags_of service w'
          ≡ flags_of service w + (if a && (b && r.verdict.qualifies) then 1 else 0))

  reading_at-value :
      (m : CostMessage N) (c : Field N) (w : State N) (cpu : N)
      → cpu_value c w ≡ (ok cpu, w)
      → reading_at m c w ≡ some (reading_of m w (score_of m cpu w))
  unfolding cpu_value reading_at
  reading_at-value m absent w cpu h =
      let same : f.milli 0 ≡ cpu = ground arith in
      ap (λ x. some (reading_of m w (score_of m x w))) same
  reading_at-value m null w cpu h = absurd (ground arith)
  reading_at-value m (given x) w cpu h =
      let same : x ≡ cpu = ground arith in ap (λ x. some (reading_of m w (score_of m x w))) same

  sample_of : CostMessage N → N → State N → Sample N
  sample_of m cpu_z w = record {
    bucket = bucket_key m.timestamp;
    value = m.cost_per_hour;
    cpu_z = cpu_z;
    traffic_z = lookup m.service w.own.traffic_z;
  }

  assessed-After :
      (m : CostMessage N) (cpu_z : N) (w w' : State N) (a b : Bool)
      → Agrees (stored_for m.service w) a b
      → stored_for m.service w' ≡ (reading_of m w cpu_z).profile
      → flags_of m.service w'
        ≡ flags_of m.service w
          + (if str_eq m.service m.service && (reading_of m w cpu_z).should_flag then 1 else 0)
      → After m.service a b (some (reading_of m w cpu_z)) w w'
  unfolding sample_of
  assessed-After m cpu_z w w' a b h profile flags =
      let s = sample_of m cpu_z w in
      let flag = assess-flag (stored_for m.service w) s a b h in
      (
        subst (λ d. Agrees d b (reading_of m w cpu_z).verdict.qualifies) (sym profile)
            (assessed-Agrees (stored_for m.service w) s a b h),
        flags ∙ ground (arith, eq_iff m.service m.service, flag),
      )

  Handled-After :
      (m : CostMessage N) (w : State N) (p : Result (Unit {0}) × State N) (a b : Bool)
      → Agrees (stored_for m.service w) a b
      → Handled m w p
      → After m.service a b (reading_at m m.cpu_cores w) w p.1
  unfolding reading_at
  Handled-After m w _ a b h (rejected e) = rw e (record { profile = refl; flags = refl })
  Handled-After m w _ a b h (assessed_as cpu p v profile s) =
      subst (λ o. After m.service a b o w p.1) (sym (reading_at-value m m.cpu_cores w cpu v))
        (assessed-After m (score_of m cpu w) w p.1 a b h profile
          (settled-flags_of m.service m _ w p s))

  own_message :
      (service : String) (m : CostMessage N) (w : State N) (a b : Bool)
      → str_eq m.service service ≡ true
      → Agrees (stored_for service w) a b
      → After service a b (reading_at m m.cpu_cores w) w (handle_cost m w).1
  own_message service m w a b q h =
      let same = (eq_iff m.service service).0 q in
      subst (λ s. After s a b (reading_at m m.cpu_cores w) w (handle_cost m w).1) same
        (Handled-After m w (handle_cost m w) a b
          (subst (λ s. Agrees (stored_for s w) a b) (sym same) h) (handle_cost-Handled m w))

  -- The rest of a run after one message of the service.
  After-total :
      (service : String) (a b : Bool) (o : Option (Reading N)) (w w' : State N) (rest : List Bool)
      (final : State N)
      → After service a b o w w'
      → ((c d : Bool)
          → Agrees (stored_for service w') c d
          → flags_of service final ≡ flags_of service w' + total (three_in_a_row c d rest))
      → Agrees (stored_for service w) a b
      → flags_of service final ≡ flags_of service w + total (three_in_a_row a b (noted o rest))
  unfolding count_if
  After-total service a b none w w' rest final untouched k h =
      k a b (subst (λ d. Agrees d a b) (sym untouched.profile) h)
      ∙ ap (λ n. n + total (three_in_a_row a b rest)) untouched.flags
  After-total service a b (some r) w w' rest final (agrees, flags) k h =
      k b r.verdict.qualifies agrees ∙ ground (arith, flags)

  run-flags_of :
      (es : List (Event N)) (service : String) (w : State N) (a b : Bool)
      → Agrees (stored_for service w) a b
      → flags_of service (run es w)
        ≡ flags_of service w + total (three_in_a_row a b (verdicts service es w))
  unfolding run step verdicts count_if
  run-flags_of [] service w a b h = omega arith
  run-flags_of (rates m ∷ es) service w a b h =
      let u = handle_traffic-IsUntouched service m w in
      After-total service a b none w (handle_traffic m w).1
        (verdicts service es (handle_traffic m w).1) (run es (handle_traffic m w).1) u
        (run-flags_of es service (handle_traffic m w).1) h
  run-flags_of (costs m ∷ es) service w a b h = elim (Bool-cases (str_eq m.service service)) [
    | inl q ↦ rw q (
        After-total service a b (reading_at m m.cpu_cores w) w (handle_cost m w).1
          (verdicts service es (handle_cost m w).1) (run es (handle_cost m w).1)
          (own_message service m w a b q h) (run-flags_of es service (handle_cost m w).1) h)
    | inr q ↦ rw q (
        After-total service a b none w (handle_cost m w).1 (verdicts service es (handle_cost m w).1)
          (run es (handle_cost m w).1) (handle_cost-IsUntouched service m w q)
          (run-flags_of es service (handle_cost m w).1) h)
  ]

  -- Over any run of cost and traffic messages, of any services and in any order, the anomalies that
  -- the table gains of a service for which no qualifying reading in a row was stored are as many as
  -- there are readings of that service that qualified together with its two readings before. A
  -- reading is a cost message whose CPU can be read.
  pub run-dwell :
      (es : List (Event N)) (service : String) (w : State N)
      → stored (stored_for service w) ≡ 0
      → flags_of service (run es w)
        ≡ flags_of service w + total (three_in_a_row false false (verdicts service es w))
  run-dwell es service w h =
      run-flags_of es service w false false (record { one = ground arith; two = ground arith })
