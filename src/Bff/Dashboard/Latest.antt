-- ===== src/Bff/Dashboard/Latest.antt =====
-- The dictionary of the latest readings.
use hypertrace.Prelude.{
  ◌≤◌, String, ◌≡◌, refl, Bool, true, false, ◌||◌, List, [], ◌∷◌, All, Dict, str_eq, eq_iff, arith,
  inl, inr, Bool-cases,
}
use mathlib.Core.List.{Memᴰ}
use hypertrace.Tables.{CostRow}
use hypertrace.Bff.Dashboard.{setdefault}

module _ {N : Type 0} where
  -- Whether a key is present.
  pub has : String → Dict N → Bool
  has k [] = false
  has k ((j, v) ∷ d) = str_eq j k || has k d

  pub has-setdefault :
      (k j : String) (v : N) (d : Dict N) → has j d ≡ true → has j (setdefault k v d) ≡ true
  unfolding has setdefault
  has-setdefault k j v [] h = cc
  has-setdefault k j v ((i, u) ∷ d) h = ground (arith, has-setdefault k j v d)

  pub has-setdefault_self : (k : String) (v : N) (d : Dict N) → has k (setdefault k v d) ≡ true
  unfolding has setdefault
  has-setdefault_self k v [] = ground (arith, eq_iff k k)
  has-setdefault_self k v ((i, u) ∷ d) = ground (arith, has-setdefault_self k v d, eq_iff i k)

  pub All-setdefault :
      (P : String × N → Type 0) (k : String) (v : N) (d : Dict N)
      → All P d
      → (has k d ≡ false → P (k, v))
      → All P (setdefault k v d)
  unfolding has setdefault
  All-setdefault P k v [] h fresh = (fresh refl, tt)
  All-setdefault P k v ((i, u) ∷ d) h fresh = elim (Bool-cases (str_eq i k)) [
    | inl e ↦ rw e h
    | inr e ↦ rw e (h.0, All-setdefault P k v d h.1 (λ f. fresh (ground arith)))
  ]

  -- A row stands for a service in a table: none of the service is later.
  pub record Latest (all : List (CostRow N)) (kv : String × N) : Type 0 where
    pub row : CostRow N
    pub member : Memᴰ row all
    pub named : row.service ≡ kv.0
    pub priced : row.cost_per_hour ≡ kv.1
    pub last : All (λ (q : CostRow N). q.service ≡ kv.0 → q.time ≤ row.time) all
