-- ===== src/Behaviour/Baselines/Stored.antt =====
-- What the table `baselines` holds after a row was stored.
use hypertrace.Prelude.{
  String, ◌≡◌, refl, ap, ◌∙◌, false, ◌&&◌, some, List, [], ◌∷◌, Dict, lookup, lookup-insert, str_eq,
  eq_iff, arith, if◌then◌else◌, Bool-cases, inl, inr,
}
use hypertrace.Float.{Float}
use hypertrace.Behaviour.Stats.{Cell, from_dict, to_dict, update, from_dict-to_dict}
use hypertrace.Behaviour.Baselines.{
  BaselineRow, load_profile, upsert, cell_at, learn_into, overall_key,
}

module _ {N : Type 0} where
  -- A profile that is loaded is the one that was stored last under its service and metric.
  pub load_profile-upsert :
      (service metric : String) (row : BaselineRow N) (rows : List (BaselineRow N))
      → load_profile service metric (upsert row rows) ≡ (
          if str_eq row.service service && str_eq row.metric metric
          then row.profile
          else load_profile service metric rows)
  unfolding load_profile upsert
  load_profile-upsert service metric row [] = ground arith
  load_profile-upsert service metric row (r ∷ rows) = ground (
    arith,
    load_profile-upsert service metric row rows,
    eq_iff r.service row.service,
    eq_iff r.metric row.metric,
    eq_iff row.service service,
    eq_iff row.metric metric,
    eq_iff r.service service,
    eq_iff r.metric metric,
  )

  -- Saving a profile does not touch those of the other metrics.
  pub load_profile-upsert_other :
      (service metric : String) (row : BaselineRow N) (rows : List (BaselineRow N))
      → str_eq row.metric metric ≡ false
      → load_profile service metric (upsert row rows) ≡ load_profile service metric rows
  load_profile-upsert_other service metric row rows h =
      load_profile-upsert service metric row rows ∙ ground arith

  -- Nor those of the other services.
  pub load_profile-upsert_elsewhere :
      (service metric : String) (row : BaselineRow N) (rows : List (BaselineRow N))
      → str_eq row.service service ≡ false
      → load_profile service metric (upsert row rows) ≡ load_profile service metric rows
  load_profile-upsert_elsewhere service metric row rows h =
      load_profile-upsert service metric row rows ∙ ground arith

  pub load_profile-upsert_self :
      (row : BaselineRow N) (rows : List (BaselineRow N))
      → load_profile row.service row.metric (upsert row rows) ≡ row.profile
  load_profile-upsert_self row rows =
      load_profile-upsert row.service row.metric row rows
      ∙ ground (arith, eq_iff row.service row.service, eq_iff row.metric row.metric)

module _ {N : Type 0} ⦃f : Float N⦄ where
  lookup-learn_into :
      (profile : Dict (Cell N)) (key bucket : String) (value : N)
      → str_eq overall_key bucket ≡ false
      → lookup bucket (learn_into profile key value) ≡ (
          if str_eq key bucket
          then some (to_dict (update (from_dict (cell_at key profile)) value))
          else lookup bucket profile)
  unfolding learn_into
  lookup-learn_into profile key bucket value h =
      lookup-insert overall_key bucket _ _
      ∙ ground (
        arith,
        lookup-insert key bucket (to_dict (update (from_dict (cell_at key profile)) value)) profile,
      )

  -- The statistics of a bucket after a reading was learned into some bucket.
  pub cell_at-learn_into :
      (profile : Dict (Cell N)) (key bucket : String) (value : N)
      → str_eq overall_key bucket ≡ false
      → from_dict (cell_at bucket (learn_into profile key value)) ≡ (
          if str_eq key bucket
          then update (from_dict (cell_at bucket profile)) value
          else from_dict (cell_at bucket profile))
  unfolding cell_at
  cell_at-learn_into profile key bucket value h =
      let l = lookup-learn_into profile key bucket value h in
      elim (Bool-cases (str_eq key bucket)) [
        | inl q ↦
            rw (l, q)
              (from_dict-to_dict _
                ∙ ap (λ k. update (from_dict (cell_at k profile)) value) ((eq_iff key bucket).0 q))
        | inr q ↦ rw (l, q) refl
      ]
