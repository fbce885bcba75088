-- ===== src/Behaviour/Handler/Outcome.antt =====
-- How the handler of cost ends, on every branch.
use hypertrace.Prelude.{
  ℕ, ◌+◌, ◌≡◌, refl, ap, ◌∙◌, Bool, true, false, List, [], ◌∷◌, ◌++◌, lookup, arith, if◌then◌else◌,
}
use hypertrace.Float.{Float}
use mathlib.Core.Path.{subst}
use hypertrace.Messaging.{routing_key_anomaly}
use hypertrace.Effects.Sending.{Sent, delivered, lost, publish-Sent}
use hypertrace.Effects.{pure, ◌>>=◌, Result, ok, err, publish_error, type_error}
use hypertrace.Schemas.{Anomaly}
use hypertrace.Tables.{AnomalyRow}
use hypertrace.Behaviour.Confidence.{confidence, corroboration_none}
use hypertrace.Behaviour.Baselines.Stored.{load_profile-upsert_other, load_profile-upsert_self}
use hypertrace.Behaviour.Baselines.{
  load_profile, save_profile, score_and_learn, mature_score, metric_cost, metric_cpu, cell_at,
}
use hypertrace.Behaviour.Stats.{from_dict}
use hypertrace.Behaviour.Detection.{bucket_key}
use hypertrace.Behaviour.Handler.{
  CostMessage, Reading, assess, anomaly_of, anomaly_row, flag_anomaly, flag_if, detected_class,
  cpu_value, Field, absent, null, given, handle_cpu, handle_cost,
}
use hypertrace.Behaviour.Handler.Flagging.{State, assessed, before_flag}

module _ {N : Type 0} ⦃f : Float N⦄ where
  abbrev pub published : CostMessage N → Reading N → State N → ℕ → Anomaly N
  published m r w at =
      anomaly_of m r (w.uuid w.made) at (confidence r.scores corroboration_none r.samples)
        (detected_class r.verdict)

  abbrev pub inserted : CostMessage N → Reading N → State N → ℕ → List (AnomalyRow N)
  inserted m r w at =
      w.own.anomalies
      ++ anomaly_row m r (w.uuid w.made) at (confidence r.scores corroboration_none r.samples)
          (detected_class r.verdict)
        ∷ []

  -- What a message is read as, by the score of its CPU.
  abbrev pub reading_of : CostMessage N → State N → N → Reading N
  reading_of m w cpu_z =
      assess (load_profile m.service metric_cost w.own.baselines) (bucket_key m.timestamp)
        m.cost_per_hour cpu_z (lookup m.service w.own.traffic_z)

  -- How a reading is settled: it is let pass, or flagged in the table and on the bus, or, when the
  -- publish raises, in the table alone.
  pub data Settled (m : CostMessage N) (r : Reading N) (w : State N)
      : Result (Unit {0}) × State N → Type 0 where
    passed :
        (w' : State N)
        → r.should_flag ≡ false
        → w'.own.anomalies ≡ w.own.anomalies
        → w'.mq ≡ w.mq
        → Settled m r w (ok tt, w')
    flagged :
        (w' : State N) (at : ℕ)
        → r.should_flag ≡ true
        → w'.own.anomalies ≡ inserted m r w at
        → w'.mq.sent ≡ w.mq.sent ++ (routing_key_anomaly, published m r w at) ∷ []
        → Settled m r w (ok tt, w')
    unsent :
        (w' : State N) (at : ℕ)
        → r.should_flag ≡ true
        → w'.own.anomalies ≡ inserted m r w at
        → w'.mq.sent ≡ w.mq.sent
        → Settled m r w (err publish_error, w')

  flagged_by :
      (m : CostMessage N) (r : Reading N) (w w2 : State N) (at : ℕ)
      (p : Result (Unit {0}) × State N)
      → r.should_flag ≡ true
      → w2.own.anomalies ≡ inserted m r w at
      → w2.mq.sent ≡ w.mq.sent
      → Sent routing_key_anomaly (published m r w at) w2 p
      → Settled m r w p
  flagged_by m r w w2 at _ h rows same (delivered c d) =
      flagged (record w2 { mq = c }) at h rows
        (d ∙ ap (λ s. s ++ (routing_key_anomaly, published m r w at) ∷ []) same)
  flagged_by m r w w2 at _ h rows same (lost c d) =
      unsent (record w2 { mq = c }) at h rows (d ∙ same)

  -- The settling of a reading, by whether it is to be flagged.
  settled_if :
      (m : CostMessage N) (r : Reading N) (w : State N) (b : Bool)
      → r.should_flag ≡ b
      → Settled m r w (
          (if b
              then flag_anomaly m r
                  (confidence r.scores corroboration_none r.samples)
                  (detected_class r.verdict)
              else pure tt)
            w)
  unfolding flag_anomaly
  settled_if m r w true h =
      let w1 : State N = record w { reads = w.reads + 1; made = w.made + 1 } in
      let w2 : State N = record w1 {
        own = record w.own { anomalies = inserted m r w (w.clock w.reads) };
      } in
      flagged_by m r w w2 (w.clock w.reads) _ h refl refl
        (publish-Sent routing_key_anomaly (published m r w (w.clock w.reads)) w2)
  settled_if m r w false h = passed w h refl refl

  flag_if-Settled :
      (m : CostMessage N) (r : Reading N) (w : State N) → Settled m r w (flag_if m r w)
  unfolding flag_if
  flag_if-Settled m r w = settled_if m r w r.should_flag refl

  -- The score of CPU, against the stored CPU profile.
  abbrev pub score_of : CostMessage N → N → State N → N
  score_of m cpu w =
      mature_score
        (from_dict
          (cell_at (bucket_key m.timestamp) (load_profile m.service metric_cpu w.own.baselines)))
        cpu

  -- What the handler of cost does with a message, in terms of the state before: a null CPU reading
  -- raises and changes nothing; any other is assessed, with its score, against the stored cost
  -- profile of its service and the traffic score in memory, and the profile that the assessment
  -- leaves is stored.
  pub data Handled (m : CostMessage N) (w : State N) : Result (Unit {0}) × State N → Type 0 where
    rejected : m.cpu_cores ≡ null → Handled m w (err type_error, w)
    assessed_as :
        (cpu : N) (p : Result (Unit {0}) × State N)
        → cpu_value m.cpu_cores w ≡ (ok cpu, w)
        → load_profile m.service metric_cost p.1.own.baselines
          ≡ (reading_of m w (score_of m cpu w)).profile
        → Settled m (reading_of m w (score_of m cpu w)) w p
        → Handled m w p

  pub flag_if-baselines :
      (m : CostMessage N) (r : Reading N) (w : State N)
      → (flag_if m r w).1.own.baselines ≡ w.own.baselines
  unfolding flag_if flag_anomaly
  flag_if-baselines m r w = ground arith

  -- The settling of a reading after CPU and the profile have been saved is that of the state before.
  settled_before :
      (m : CostMessage N) (cpu : N) (w : State N) (r : Reading N) (p : Result (Unit {0}) × State N)
      → Settled m r (before_flag m cpu w) p
      → Settled m r w p
  unfolding score_and_learn save_profile
  settled_before m cpu w r _ (passed w' h rows same) = passed w' h rows same
  settled_before m cpu w r _ (flagged w' at h rows out) = flagged w' at h rows out
  settled_before m cpu w r _ (unsent w' at h rows same) = unsent w' at h rows same

  assessed-reading_of :
      (m : CostMessage N) (cpu : N) (w : State N)
      → assessed m cpu w ≡ reading_of m w (score_of m cpu w)
  unfolding score_and_learn save_profile
  assessed-reading_of m cpu w =
      ap
        (λ profile.
          assess profile (bucket_key m.timestamp) m.cost_per_hour (score_of m cpu w)
            (lookup m.service w.own.traffic_z))
        (load_profile-upsert_other m.service metric_cost _ w.own.baselines refl)

  handle_cpu-Handled :
      (m : CostMessage N) (cpu : N) (w : State N)
      → cpu_value m.cpu_cores w ≡ (ok cpu, w)
      → Handled m w (handle_cpu m cpu w)
  unfolding handle_cpu score_and_learn save_profile
  handle_cpu-Handled m cpu w h =
      let same = assessed-reading_of m cpu w in
      let wb : State N = before_flag m cpu w in
      assessed_as cpu (handle_cpu m cpu w) h
        (ap (load_profile m.service metric_cost) (flag_if-baselines m (assessed m cpu w) wb)
          ∙ load_profile-upsert_self _ _
          ∙ ap (λ r. r.profile) same)
        (subst (λ r. Settled m r w (handle_cpu m cpu w)) same
          (settled_before m cpu w (assessed m cpu w) (handle_cpu m cpu w)
            (flag_if-Settled m (assessed m cpu w) wb)))

  field-Handled :
      (m : CostMessage N) (c : Field N) (w : State N)
      → m.cpu_cores ≡ c
      → Handled m w ((cpu_value c >>= λ cpu. handle_cpu m cpu) w)
  unfolding cpu_value
  field-Handled m absent w h = handle_cpu-Handled m (f.milli 0) w (ap (λ c. cpu_value c w) h)
  field-Handled m null w h = rejected h
  field-Handled m (given cpu) w h = handle_cpu-Handled m cpu w (ap (λ c. cpu_value c w) h)

  -- The handler of cost ends in one of four ways: it raises on a null CPU reading and changes
  -- nothing; or it assesses the reading, with the score of its CPU against the stored CPU profile,
  -- by the cost profile that was stored before, stores the profile that the assessment leaves, and
  -- then either lets the reading pass, or inserts one row and publishes one anomaly, or, when the
  -- publish raises, inserts the row and raises too. It inserts the row exactly when the assessment
  -- says to flag.
  pub handle_cost-Handled : (m : CostMessage N) (w : State N) → Handled m w (handle_cost m w)
  unfolding handle_cost
  handle_cost-Handled m w = field-Handled m m.cpu_cores w refl
