-- ===== src/Behaviour/Handler/Flagging.antt =====
-- When the detector flags an anomaly, what it publishes, and what it stores.
use hypertrace.Prelude.{
  ℕ, ◌+◌, ◌≤◌, ◌≡◌, ◌≢◌, refl, ◌∙◌, Bool-cases, inl, inr, String, Bool, true, false, Option, none,
  some, get_or, [], ◌∷◌, ◌++◌, Dict, lookup, arith,
}
use hypertrace.Float.{Float}
use hypertrace.Float.Laws.{IsOrdered, ◌≼◌}
use hypertrace.Messaging.{routing_key_anomaly}
use hypertrace.Messaging.Publish.{publish-Delivered}
use mathlib.Core.Path.{subst}
use hypertrace.Effects.{◌>>=◌, World, ok, err}
use hypertrace.Schemas.{Anomaly, AnomalyClassification}
use hypertrace.Behaviour.Stats.{Cell, BucketStats, from_dict, z_score, stddev}
use hypertrace.Behaviour.Confidence.{confidence, corroboration_none}
use hypertrace.Behaviour.Confidence.Bounds.{confidence_uncorroborated}
use hypertrace.Behaviour.Detection.{
  evaluate_condition, dwell_samples, min_samples_for_detection, bucket_key,
}
use hypertrace.Behaviour.Detection.Laws.{evaluate_condition-exclusive, has_moved-cost_only}
use hypertrace.Behaviour.Baselines.Stored.{load_profile-upsert_other}
use hypertrace.Behaviour.Baselines.{
  Engine, load_profile, save_profile, score_and_learn, metric_cost, metric_cpu, cell_at,
  mature_score, flag_state_key,
}
use hypertrace.Behaviour.Handler.{
  CostMessage, Reading, assess, anomaly_of, anomaly_row, flag_anomaly, flag_if, detected_class,
  cpu_value, Field, absent, null, given, handle_cpu, handle_cost,
}

abbrev pub State : Type 0 → Type 0
State N = World (Anomaly N) (Engine N)

module _ {N : Type 0} ⦃f : Float N⦄ where
  -- What a reading that is flagged has: three qualifying readings in a row, a cost more than three
  -- deviations above its bucket's mean, and known traffic less than one deviation above its own.
  pub record Qualified (traffic_z : Option N) (stored : ℕ) (r : Reading N) : Type 0 where
    pub dwelt : dwell_samples ≤ stored + 1
    pub consecutive : r.consecutive ≡ stored + 1
    pub known : traffic_z ≡ some r.scores.traffic_z
    pub calm : f.lt r.scores.traffic_z (f.milli 1000) ≡ true
    pub moved : f.lt (f.milli 3000) r.scores.cost_z ≡ true
    pub unexplained : r.verdict.traffic_explains ≡ false

  -- The score of cost is the distance of the reading from the mean of some statistics, in their
  -- deviations, and these have the thirty readings that detection needs.
  pub record Deviates (s : BucketStats N) (value : N) (r : Reading N) : Type 0 where
    pub mature : min_samples_for_detection ≤ s.n
    pub score : r.scores.cost_z ≡ f.div (f.sub value s.mean) (stddev s)

  -- What `handle_cpu` assesses: CPU has been stored by then, which leaves the cost profile alone.
  abbrev pub assessed : CostMessage N → N → State N → Reading N
  assessed m cpu w =
      let (scored, w1) = score_and_learn m.service metric_cpu cpu (bucket_key m.timestamp) w in
      assess (load_profile m.service metric_cost w1.own.baselines) (bucket_key m.timestamp)
        m.cost_per_hour (elim scored [ ok p ↦ p.0 | err e ↦ f.milli 0 ])
        (lookup m.service w.own.traffic_z)

  abbrev pub before_flag : CostMessage N → N → State N → State N
  before_flag m cpu w =
      (save_profile m.service metric_cost (assessed m cpu w).profile
        (score_and_learn m.service metric_cpu cpu (bucket_key m.timestamp) w).1).1

module _ {N : Type 0} ⦃f : Float N⦄ (o : IsOrdered N) where
  -- What a qualifying reading is.
  evaluate_condition-qualifies :
      (cost_z cpu_z : N) (traffic_z : Option N) (mature : Bool)
      → (evaluate_condition cost_z cpu_z traffic_z mature).qualifies ≡ true
      → (traffic_z ≡ some (get_or traffic_z (f.milli 0)))
        × (f.lt (get_or traffic_z (f.milli 0)) (f.milli 1000) ≡ true)
        × (f.lt (f.milli 3000) cost_z ≡ true)
  unfolding evaluate_condition
  evaluate_condition-qualifies cost_z cpu_z none mature h = ground arith
  evaluate_condition-qualifies cost_z cpu_z (some traffic_z) false h = ground arith
  evaluate_condition-qualifies cost_z cpu_z (some traffic_z) true h =
      (refl, ground arith, ground (arith, has_moved-cost_only o cost_z cpu_z))

  qualifies→mature :
      (cost_z cpu_z : N) (traffic_z : Option N) (mature : Bool)
      → (evaluate_condition cost_z cpu_z traffic_z mature).qualifies ≡ true
      → mature ≡ true
  unfolding evaluate_condition
  qualifies→mature cost_z cpu_z none mature h = ground arith
  qualifies→mature cost_z cpu_z (some traffic_z) mature h = ground arith

  -- A score above three is a quotient.
  z_score-above :
      (s : BucketStats N) (value : N)
      → f.lt (f.milli 3000) (z_score s value) ≡ true
      → z_score s value ≡ f.div (f.sub value s.mean) (stddev s)
  unfolding z_score
  z_score-above s value h = elim (Bool-cases (f.eq (stddev s) (f.milli 0))) [
    | inl q ↦
        absurd (ground (arith, o.lt-eq-not-le (f.milli 3000) (f.milli 0), o.milli_mono 0 3000))
    | inr q ↦ rw q refl
  ]

  flags→qualifies :
      (profile : Dict (Cell N)) (bucket : String) (value cpu_z : N) (traffic_z : Option N)
      → (assess profile bucket value cpu_z traffic_z).should_flag ≡ true
      → (assess profile bucket value cpu_z traffic_z).verdict.qualifies ≡ true
  unfolding assess
  flags→qualifies profile bucket value cpu_z traffic_z h = ground arith

  assess-Qualified :
      (profile : Dict (Cell N)) (bucket : String) (value cpu_z : N) (traffic_z : Option N)
      → (assess profile bucket value cpu_z traffic_z).should_flag ≡ true
      → Qualified traffic_z
          (get_or (cell_at flag_state_key profile).consecutive_qualifying 0)
          (assess profile bucket value cpu_z traffic_z)
  unfolding assess
  assess-Qualified profile bucket value cpu_z traffic_z h =
      let q = flags→qualifies profile bucket value cpu_z traffic_z h in
      let (known, calm, moved) = evaluate_condition-qualifies _ _ traffic_z _ q in
      record {
        dwelt = ground arith;
        consecutive = ground arith;
        known = known;
        calm = calm;
        moved = moved;
        unexplained = evaluate_condition-exclusive o _ _ traffic_z _ q;
      }

  assess-Deviates :
      (profile : Dict (Cell N)) (bucket : String) (value cpu_z : N) (traffic_z : Option N)
      → (assess profile bucket value cpu_z traffic_z).should_flag ≡ true
      → Deviates
          (from_dict (cell_at bucket profile))
          value
          (assess profile bucket value cpu_z traffic_z)
  unfolding assess mature_score
  assess-Deviates profile bucket value cpu_z traffic_z h =
      let stats = from_dict (cell_at bucket profile) in
      let q = flags→qualifies profile bucket value cpu_z traffic_z h in
      let mature = qualifies→mature _ _ traffic_z _ q in
      let (known, calm, moved) = evaluate_condition-qualifies _ _ traffic_z _ q in
      record {
        mature = ground arith;
        score =
            let s : mature_score stats value ≡ z_score stats value = ground arith in
            s ∙ z_score-above stats value (subst (λ z. f.lt (f.milli 3000) z ≡ true) s moved);
      }

  -- A flag, as left: the published anomaly and its row, which carry the same identifier, the class
  -- left open, and a confidence of at most 0.8.
  pub record IsFlagged (m : CostMessage N) (r : Reading N) (w w' : State N) : Type 0 where
    pub at : ℕ
    pub score : N
    pub scored : score ≡ confidence r.scores corroboration_none r.samples
    pub low : score ≼ f.milli 800
    pub sent :
        w'.mq.sent
        ≡ w.mq.sent
          ++ (
            routing_key_anomaly,
            anomaly_of m r (w.uuid w.made) at score AnomalyClassification.unclassified,
          )
            ∷ []
    pub recorded :
        w'.own.anomalies
        ≡ w.own.anomalies
          ++ anomaly_row m r (w.uuid w.made) at score AnomalyClassification.unclassified ∷ []

  -- A flag of the whole handler.
  pub record Flag (m : CostMessage N) (w w' : State N) : Type 0 where
    pub reading : Reading N
    pub deviates :
        Deviates
          (from_dict
            (cell_at (bucket_key m.timestamp) (load_profile m.service metric_cost w.own.baselines)))
          m.cost_per_hour
          reading
    pub left : IsFlagged m reading w w'
    pub qualified :
        Qualified
          (lookup m.service w.own.traffic_z)
          (get_or
            (cell_at flag_state_key
              (load_profile m.service metric_cost w.own.baselines)).consecutive_qualifying
            0)
          reading

  flag_if-IsFlagged :
      (m : CostMessage N) (r : Reading N) (w : State N)
      → r.verdict.traffic_explains ≡ false
      → (flag_if m r w).1.mq.sent ≢ w.mq.sent
      → IsFlagged m r w (flag_if m r w).1
  unfolding flag_if flag_anomaly detected_class
  flag_if-IsFlagged m r w clear h = record {
    at = w.clock w.reads;
    score = confidence r.scores corroboration_none r.samples;
    scored = refl;
    low = confidence_uncorroborated o r.scores r.samples;
    sent = ground (
      arith,
      publish-Delivered routing_key_anomaly
          (anomaly_of m r (w.uuid w.made) (w.clock w.reads)
            (confidence r.scores corroboration_none r.samples) AnomalyClassification.unclassified)
          w.mq,
    );
    recorded = ground arith;
  }

  flag_if-flags :
      (m : CostMessage N) (r : Reading N) (w : State N)
      → (flag_if m r w).1.mq.sent ≢ w.mq.sent
      → r.should_flag ≡ true
  unfolding flag_if
  flag_if-flags m r w h = ground arith

  handle_cpu-Flag :
      (m : CostMessage N) (cpu : N) (w : State N)
      → (handle_cpu m cpu w).1.mq.sent ≢ w.mq.sent
      → Flag m w (handle_cpu m cpu w).1
  unfolding handle_cpu score_and_learn save_profile
  handle_cpu-Flag m cpu w h =
      let flags = flag_if-flags m (assessed m cpu w) (before_flag m cpu w) h in
      let q =
        assess-Qualified _ (bucket_key m.timestamp) m.cost_per_hour _
          (lookup m.service w.own.traffic_z) flags in
      let l = flag_if-IsFlagged m (assessed m cpu w) (before_flag m cpu w) q.unexplained h in
      record {
        reading = assessed m cpu w;
        deviates =
            subst
              (λ profile.
                Deviates (from_dict (cell_at (bucket_key m.timestamp) profile)) m.cost_per_hour
                  (assessed m cpu w))
              (load_profile-upsert_other m.service metric_cost _ w.own.baselines refl)
              (assess-Deviates _ (bucket_key m.timestamp) m.cost_per_hour _
                (lookup m.service w.own.traffic_z) flags);
        left = record {
          at = l.at;
          score = l.score;
          scored = l.scored;
          low = l.low;
          sent = l.sent;
          recorded = l.recorded;
        };
        qualified =
            subst
              (λ profile.
                Qualified (lookup m.service w.own.traffic_z)
                  (get_or (cell_at flag_state_key profile).consecutive_qualifying 0)
                  (assessed m cpu w))
              (load_profile-upsert_other m.service metric_cost _ w.own.baselines refl) q;
      }

  field-Flag :
      (m : CostMessage N) (c : Field N) (w : State N)
      → ((cpu_value c >>= λ cpu. handle_cpu m cpu) w).1.mq.sent ≢ w.mq.sent
      → Flag m w ((cpu_value c >>= λ cpu. handle_cpu m cpu) w).1
  unfolding cpu_value
  field-Flag m absent w h = handle_cpu-Flag m (f.milli 0) w h
  field-Flag m null w h = absurd (h refl)
  field-Flag m (given cpu) w h = handle_cpu-Flag m cpu w h

  pub handle_cost-Flag :
      (m : CostMessage N) (w : State N)
      → (handle_cost m w).1.mq.sent ≢ w.mq.sent
      → Flag m w (handle_cost m w).1
  unfolding handle_cost
  handle_cost-Flag m w h = field-Flag m m.cpu_cores w h
