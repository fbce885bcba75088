-- ===== src/Behaviour/Handler/Learning.antt =====
-- When a cost reading trains its baseline, in the profile that `_handle_cost` saves.
use hypertrace.Prelude.{
  ◌<◌, ◌≡◌, refl, ap, ◌∙◌, String, true, false, Option, some, get_or, Dict, lookup, lookup-insert,
  lookup-insert_self, str_eq, arith,
}
use hypertrace.Float.{Float}
use hypertrace.Behaviour.Stats.{
  BucketStats, Cell, empty_cell, from_dict, to_dict, update, from_dict-to_dict,
}
use hypertrace.Behaviour.Detection.{should_learn, max_consecutive_suppressed}
use hypertrace.Behaviour.Baselines.{cell_at, learn_into, flag_state_key, overall_key}
use hypertrace.Behaviour.Handler.{assess}

module _ {N : Type 0} ⦃f : Float N⦄ where
  -- A qualifying reading leaves every statistic of the profile as it was, until 30 in a row have been
  -- suppressed.
  pub assess-frozen :
      (profile : Dict (Cell N)) (bucket key : String) (value cpu_z : N) (traffic_z : Option N)
      → (assess profile bucket value cpu_z traffic_z).verdict.qualifies ≡ true
      → get_or (cell_at flag_state_key profile).consecutive 0 < max_consecutive_suppressed
      → str_eq flag_state_key key ≡ false
      → lookup key (assess profile bucket value cpu_z traffic_z).profile ≡ lookup key profile
  unfolding assess should_learn
  assess-frozen profile bucket key value cpu_z traffic_z q few other =
      lookup-insert flag_state_key key _ _ ∙ ground arith

  saved_at :
      (profile : Dict (Cell N)) (bucket key : String) (value cpu_z : N) (traffic_z : Option N)
      → (assess profile bucket value cpu_z traffic_z).verdict.qualifies ≡ false
      → str_eq flag_state_key key ≡ false
      → lookup key (assess profile bucket value cpu_z traffic_z).profile
        ≡ lookup key (learn_into profile bucket value)
  unfolding assess should_learn
  saved_at profile bucket key value cpu_z traffic_z q other =
      lookup-insert flag_state_key key _ _ ∙ ground arith

  bucket_after :
      (profile : Dict (Cell N)) (bucket : String) (value : N)
      → str_eq overall_key bucket ≡ false
      → lookup bucket (learn_into profile bucket value)
        ≡ some (to_dict (update (from_dict (cell_at bucket profile)) value))
  unfolding learn_into
  bucket_after profile bucket value other =
      lookup-insert overall_key bucket _ _
      ∙ ground (
        arith,
        lookup-insert_self bucket (to_dict (update (from_dict (cell_at bucket profile)) value))
            profile,
      )

  overall_after :
      (profile : Dict (Cell N)) (bucket : String) (value : N)
      → lookup overall_key (learn_into profile bucket value)
        ≡ some (to_dict (update (from_dict (cell_at overall_key profile)) value))
  unfolding learn_into
  overall_after profile bucket value = lookup-insert_self overall_key _ _

  read_back :
      (key : String) (profile : Dict (Cell N)) (s : BucketStats N)
      → lookup key profile ≡ some (to_dict s)
      → from_dict (cell_at key profile) ≡ s
  unfolding cell_at
  read_back key profile s h = ap (λ c. from_dict (get_or c empty_cell)) h ∙ from_dict-to_dict s

  -- A reading that does not qualify is folded into the statistics of its bucket, as Welford's step
  -- has it, and into the overall ones.
  assess-learned :
      (profile : Dict (Cell N)) (bucket : String) (value cpu_z : N) (traffic_z : Option N)
      → (assess profile bucket value cpu_z traffic_z).verdict.qualifies ≡ false
      → str_eq flag_state_key bucket ≡ false
      → str_eq overall_key bucket ≡ false
      → (from_dict (cell_at bucket (assess profile bucket value cpu_z traffic_z).profile)
          ≡ update (from_dict (cell_at bucket profile)) value)
        × (from_dict (cell_at overall_key (assess profile bucket value cpu_z traffic_z).profile)
            ≡ update (from_dict (cell_at overall_key profile)) value)
  assess-learned profile bucket value cpu_z traffic_z q not_flag not_overall = (
    read_back bucket _ _ (
        saved_at profile bucket bucket value cpu_z traffic_z q not_flag
        ∙ bucket_after profile bucket value not_overall),
    read_back overall_key _ _ (
        saved_at profile bucket overall_key value cpu_z traffic_z q refl
        ∙ overall_after profile bucket value),
  )
