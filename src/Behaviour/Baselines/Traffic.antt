-- ===== src/Behaviour/Baselines/Traffic.antt =====
-- What the engine has learned of the traffic of a service after any number of samples.
use hypertrace.Prelude.{
  ◌+◌, String, ◌≡◌, refl, ap, ◌∙◌, true, false, ◌&&◌, List, [], ◌∷◌, length, str_eq, eq_iff,
  if◌then◌else◌, Bool-cases, inl, inr,
}
use hypertrace.Float.{Float}
use hypertrace.Effects.{World}
use hypertrace.Schemas.{Anomaly, TrafficSample}
use hypertrace.Behaviour.Stats.{BucketStats, from_dict, update}
use hypertrace.Behaviour.Stats.Welford.{updates, updates-length}
use hypertrace.Behaviour.Detection.{bucket_key}
use hypertrace.Behaviour.Baselines.{
  BaselineRow, Engine, load_profile, cell_at, learn_into, overall_key, metric_traffic, save_profile,
  score_and_learn, handle_traffic,
}
use hypertrace.Behaviour.Baselines.Stored.{load_profile-upsert, cell_at-learn_into}

abbrev pub State : Type 0 → Type 0
State N = World (Anomaly N) (Engine N)

module _ {N : Type 0} ⦃f : Float N⦄ where
  -- Samples handled one after another, of any services and at any times.
  abbrev pub handle_all : List (TrafficSample N) → State N → State N
  handle_all [] w = w
  handle_all (m ∷ ms) w = handle_all ms (handle_traffic m w).1

  -- The stored statistics of one bucket of a service.
  abbrev pub bucket_stats : String → String → State N → BucketStats N
  bucket_stats service bucket w =
      from_dict (cell_at bucket (load_profile service metric_traffic w.own.baselines))

  -- The rates among the samples that belong to the bucket of the service.
  abbrev pub rates_of : String → String → List (TrafficSample N) → List N
  rates_of service bucket [] = []
  rates_of service bucket (m ∷ ms) =
      let rest = rates_of service bucket ms in
      if str_eq m.service service && str_eq (bucket_key m.timestamp) bucket
      then m.requests_per_second ∷ rest
      else rest

  -- The same by the profile that the table answers with after the sample.
  learned_cell :
      (service other key bucket : String) (value : N) (rows : List (BaselineRow N))
      → str_eq overall_key bucket ≡ false
      → let kept = from_dict (cell_at bucket (load_profile service metric_traffic rows)) in
        from_dict (
          cell_at bucket (
            if str_eq other service && true
            then learn_into (load_profile other metric_traffic rows) key value
            else load_profile service metric_traffic rows))
        ≡ (if str_eq other service && str_eq key bucket then update kept value else kept)
  learned_cell service other key bucket value rows h = elim (Bool-cases (str_eq other service)) [
    | inl q ↦ rw q (
        cell_at-learn_into (load_profile other metric_traffic rows) key bucket value h
        ∙ ap
            (λ s.
              let kept = from_dict (cell_at bucket (load_profile s metric_traffic rows)) in
              if str_eq key bucket then update kept value else kept)
            ((eq_iff other service).0 q))
    | inr q ↦ rw q refl
  ]

  handle_traffic-bucket_stats :
      (service bucket : String) (m : TrafficSample N) (w : State N)
      → str_eq overall_key bucket ≡ false
      → bucket_stats service bucket (handle_traffic m w).1 ≡ (
          if str_eq m.service service && str_eq (bucket_key m.timestamp) bucket
          then update (bucket_stats service bucket w) m.requests_per_second
          else bucket_stats service bucket w)
  unfolding handle_traffic score_and_learn save_profile
  handle_traffic-bucket_stats service bucket m w h =
      ap (λ p. from_dict (cell_at bucket p))
        (load_profile-upsert service metric_traffic _ w.own.baselines)
      ∙ learned_cell service m.service (bucket_key m.timestamp) bucket m.requests_per_second
          w.own.baselines h

  handle_all-bucket_stats :
      (ms : List (TrafficSample N)) (service bucket : String) (w : State N)
      → str_eq overall_key bucket ≡ false
      → bucket_stats service bucket (handle_all ms w)
        ≡ updates (bucket_stats service bucket w) (rates_of service bucket ms)
  handle_all-bucket_stats [] service bucket w h = refl
  handle_all-bucket_stats (m ∷ ms) service bucket w h =
      let after = handle_all-bucket_stats ms service bucket (handle_traffic m w).1 h in
      let step = handle_traffic-bucket_stats service bucket m w h in
      after
      ∙ ap (λ s. updates s (rates_of service bucket ms)) step
      ∙ elim (Bool-cases (str_eq m.service service && str_eq (bucket_key m.timestamp) bucket)) [
        | inl q ↦ rw q refl
        | inr q ↦ rw q refl
      ]

  -- The statistics that some readings leave, one after another: the count goes up by one, the mean
  -- moves by the difference over the count, and the product of the differences before and after is
  -- added to `m2`.
  abbrev pub learned : BucketStats N → List N → BucketStats N
  learned s [] = s
  learned s (x ∷ xs) =
      let mean = f.add s.mean (f.div (f.sub x s.mean) (f.of_nat (s.n + 1))) in
      learned
        (record {
          n = s.n + 1;
          mean = mean;
          m2 = f.add s.m2 (f.mul (f.sub x s.mean) (f.sub x mean));
        })
        xs

  updates-learned : (xs : List N) (s : BucketStats N) → updates s xs ≡ learned s xs
  unfolding update
  updates-learned [] s = refl
  updates-learned (x ∷ xs) s = updates-learned xs (update s x)

  -- After any traffic samples, of any services and at any times, the stored statistics of a bucket of
  -- a service are those that were stored before with the rates of its own samples learned in their
  -- order, each once and no other, rounded as the program rounds: the count has grown by their
  -- number. The bucket is not called `_overall`.
  pub handle_all-learned :
      (ms : List (TrafficSample N)) (service bucket : String) (w : State N)
      → str_eq overall_key bucket ≡ false
      → let rates = rates_of service bucket ms in
        let stats = bucket_stats service bucket w in
        let later = bucket_stats service bucket (handle_all ms w) in
        (later ≡ learned stats rates) × (later.n ≡ stats.n + length rates)
  handle_all-learned ms service bucket w h =
      let rates = rates_of service bucket ms in
      let stats = bucket_stats service bucket w in
      let stored = handle_all-bucket_stats ms service bucket w h in
      (
        stored ∙ updates-learned rates stats,
        ap (λ (s : BucketStats N). s.n) stored ∙ updates-length rates stats,
      )
