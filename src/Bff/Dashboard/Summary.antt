-- ===== src/Bff/Dashboard/Summary.antt =====
-- What the summary of `get_dashboard_summary` shows.
use hypertrace.Prelude.{
  ℕ, ◌-◌, ◌≤◌, String, ◌≡◌, refl, sym, ap, Bool, true, false, List, [], ◌∷◌, select, length,
  sort_by, All, All-at, All-take, All-select, All-select_inverse, length-take, take-IsSortedBy,
  All-map, All-Mem, All-sort_by, All-sort_by_inverse, IsSortedBy, sort_by-IsSortedBy, Dict, eq_iff,
  leb, arith, ◌⊎◌, inl, inr,
}
use mathlib.Core.Path.{subst}
use mathlib.Core.List.{Memᴰ}
use hypertrace.Float.{Float}
use hypertrace.Float.Laws.{IsOrdered}
use hypertrace.Effects.{minutes}
use hypertrace.Tables.{CostRow}
use hypertrace.Bff.Dashboard.{
  SummaryEntry, setdefault, latest_by_service, entries, by_service_latest, is_dearer, summarise,
}
use hypertrace.Bff.Dashboard.Latest.{
  has, has-setdefault, has-setdefault_self, All-setdefault, Latest,
}

-- The order of the database on texts: linear.
pub record IsCollation (by_text : String → String → Bool) : Type 0 where
  pub text_total : (s t : String) → by_text s t ≡ false → by_text t s ≡ true
  pub text_trans : (s t u : String) → by_text s t ≡ true → by_text t u ≡ true → by_text s u ≡ true
  pub text_antisym : (s t : String) → by_text s t ≡ true → by_text t s ≡ true → s ≡ t

module _ {N : Type 0} ⦃f : Float N⦄ (by_text : String → String → Bool)
    (c : IsCollation by_text) where
  le_total :
      (a b : CostRow N)
      → by_service_latest by_text a b ≡ false
      → by_service_latest by_text b a ≡ true
  le_total a b h = ground (
    arith,
    eq_iff a.service b.service,
    eq_iff b.service a.service,
    c.text_total a.service b.service,
  )

  le_trans :
      (a b d : CostRow N)
      → by_service_latest by_text a b ≡ true
      → by_service_latest by_text b d ≡ true
      → by_service_latest by_text a d ≡ true
  le_trans a b d h k = ground (
    arith,
    eq_iff a.service b.service,
    eq_iff b.service d.service,
    eq_iff a.service d.service,
    c.text_trans a.service b.service d.service,
    c.text_antisym a.service b.service,
  )

  -- Each row of the table is still to come, or its service is in the dictionary.
  abbrev Seen : List (CostRow N) → List (CostRow N) → Dict N → Type 0
  Seen all rows d = All (λ (q : CostRow N). Memᴰ q rows ⊎ (has q.service d ≡ true)) all

  setdefault-Seen :
      (all rows : List (CostRow N)) (r : CostRow N) (d : Dict N)
      → Seen all (r ∷ rows) d
      → Seen all rows (setdefault r.service r.cost_per_hour d)
  setdefault-Seen all rows r d h =
      All-map (λ (q : CostRow N). Memᴰ q (r ∷ rows) ⊎ (has q.service d ≡ true))
        (λ (q : CostRow N).
          Memᴰ q rows ⊎ (has q.service (setdefault r.service r.cost_per_hour d) ≡ true))
        all
        (λ q k. elim k [
          | inl (Memᴰ.head e) ↦ inr (
              subst (λ s. has s (setdefault r.service r.cost_per_hour d) ≡ true)
                (ap (λ (q : CostRow N). q.service) (sym e))
                (has-setdefault_self r.service r.cost_per_hour d))
          | inl (Memᴰ.tail m) ↦ inl m
          | inr e ↦ inr (has-setdefault r.service q.service r.cost_per_hour d e)
        ])
        h

  -- The first row of a service that is not in the dictionary is its latest.
  head-Latest :
      (all rows : List (CostRow N)) (r : CostRow N) (d : Dict N)
      → Memᴰ r all
      → All (λ q. by_service_latest by_text r q ≡ true) rows
      → Seen all (r ∷ rows) d
      → has r.service d ≡ false
      → Latest all (r.service, r.cost_per_hour)
  head-Latest all rows r d member before seen fresh = record {
    row = r;
    member = member;
    named = refl;
    priced = refl;
    last =
        All-map (λ (q : CostRow N). Memᴰ q (r ∷ rows) ⊎ (has q.service d ≡ true))
          (λ (q : CostRow N). q.service ≡ r.service → q.time ≤ r.time) all
          (λ q k same. elim k [
            | inl (Memᴰ.head e) ↦ let at = ap (λ (q : CostRow N). q.time) e in omega arith
            | inl (Memᴰ.tail m) ↦
                let le = All-at (λ q. by_service_latest by_text r q ≡ true) rows before m in
                ground (arith, eq_iff r.service q.service)
            | inr e ↦ let known = subst (λ s. has s d ≡ true) same e in cc
          ])
          seen;
  }

  latest_by_service-Latest :
      (all rows : List (CostRow N)) (d : Dict N)
      → All (λ r. Memᴰ r all) rows
      → IsSortedBy (by_service_latest by_text) rows
      → Seen all rows d
      → All (Latest all) d
      → All (Latest all) (latest_by_service rows d)
  unfolding latest_by_service
  latest_by_service-Latest all [] d members sorted seen h = h
  latest_by_service-Latest all (r ∷ rows) d members sorted seen h =
      latest_by_service-Latest all rows (setdefault r.service r.cost_per_hour d) members.1 sorted.1
        (setdefault-Seen all rows r d seen)
        (All-setdefault (Latest all) r.service r.cost_per_hour d h
          (head-Latest all rows r d members.0 sorted.0 seen))

  entries-All :
      (P : String × N → Type 0) (d : Dict N)
      → All P d
      → All (λ (e : SummaryEntry N). P (e.service, e.cost_per_hour)) (entries d)
  unfolding entries
  entries-All P [] h = tt
  entries-All P ((s, v) ∷ d) h = (h.0, entries-All P d h.1)

  -- An entry shows the latest reading of its service, and one of the last five minutes.
  pub record IsCurrent (at : ℕ) (rows : List (CostRow N)) (e : SummaryEntry N) : Type 0 where
    pub row : CostRow N
    pub member : Memᴰ row rows
    pub named : row.service ≡ e.service
    pub priced : row.cost_per_hour ≡ e.cost_per_hour
    pub recent : at - minutes 5 ≤ row.time
    pub last : All (λ (q : CostRow N). q.service ≡ e.service → q.time ≤ row.time) rows

  abbrev is_recent : ℕ → CostRow N → Bool
  is_recent at r = leb (at - minutes 5) r.time

  -- The latest of the recent rows is the latest of all.
  newest-IsCurrent :
      (at : ℕ) (rows : List (CostRow N)) (e : SummaryEntry N)
      → Latest
          (sort_by (by_service_latest by_text) (select (is_recent at) rows))
          (e.service, e.cost_per_hour)
      → IsCurrent at rows e
  newest-IsCurrent at rows e h =
      let recent = select (is_recent at) rows in
      let InWindow : CostRow N → Type 0 = λ r. Memᴰ r rows × (is_recent at r ≡ true) in
      let found =
        All-at InWindow (sort_by (by_service_latest by_text) recent)
          (All-sort_by (by_service_latest by_text) InWindow recent
            (All-select (λ r. Memᴰ r rows) (is_recent at) rows (All-Mem rows)))
          h.member in
      let NotLater : CostRow N → Type 0 = λ q. q.service ≡ e.service → q.time ≤ h.row.time in
      record {
        row = h.row;
        member = found.0;
        named = h.named;
        priced = h.priced;
        recent = ground (arith, found.1);
        last =
            All-select_inverse NotLater (is_recent at) rows
              (All-sort_by_inverse (by_service_latest by_text) NotLater recent h.last)
              (λ q old same. ground (arith, found.1));
      }

  -- The summary of the dashboard lists at most ten services, by falling cost, and each with the
  -- latest reading that the table has of it, which is at most five minutes old; where the database
  -- orders texts by a linear order and costs are finite.
  pub summarise-IsCurrent :
      IsOrdered N
      → (at : ℕ) (rows : List (CostRow N))
      → All (IsCurrent at rows) (summarise by_text at rows).top_services
        × (length (summarise by_text at rows).top_services ≤ 10)
        × IsSortedBy (is_dearer by_text) (summarise by_text at rows).top_services
  unfolding summarise
  summarise-IsCurrent o at rows =
      let sorted = sort_by (by_service_latest by_text) (select (is_recent at) rows) in
      let latest =
        latest_by_service-Latest sorted sorted [] (All-Mem sorted)
          (sort_by-IsSortedBy (by_service_latest by_text) le_total le_trans
            (select (is_recent at) rows))
          (All-map (λ q. Memᴰ q sorted) (λ q. Memᴰ q sorted ⊎ (has q.service [] ≡ true)) sorted
            (λ q m. inl m) (All-Mem sorted))
          tt in
      let shown = entries (latest_by_service sorted []) in
      (
        All-take (IsCurrent at rows) 10 (sort_by (is_dearer by_text) shown) (
            All-sort_by (is_dearer by_text) (IsCurrent at rows) shown (
              All-map _ (IsCurrent at rows) shown (newest-IsCurrent at rows)
                (entries-All (Latest sorted) (latest_by_service sorted []) latest))),
        length-take 10 (sort_by (is_dearer by_text) shown),
        take-IsSortedBy (is_dearer by_text) 10 (sort_by (is_dearer by_text) shown) (
            sort_by-IsSortedBy (is_dearer by_text)
              (λ a b. o.le_total b.cost_per_hour a.cost_per_hour)
              (λ a b d h k. o.le_trans d.cost_per_hour b.cost_per_hour a.cost_per_hour k h) shown),
      )
