-- ===== src/Bff/Actions/Latest.antt =====
-- The row that the endpoints act on, the `SELECT` with `ORDER BY executed_at DESC LIMIT 1`.
use hypertrace.Prelude.{
  String, ◌≡◌, refl, ◌⊎◌, inl, inr, Bool, true, false, ◌&&◌, some, List, [], ◌∷◌, All, All-Mem,
  select, first, sort_by, IsSortedBy, sort_by-IsSortedBy, All-sort_by_inverse, All-sort_by, leb,
  arith, Bool-cases,
}
use mathlib.Core.Path.{subst}
use mathlib.Core.List.{Memᴰ}
use hypertrace.Tables.{ActionRow, ActionResult}
use hypertrace.Bff.Actions.{latest, is_later, is_about}

module _ {A : Type 0} (p : A → Bool) where
  All-select :
      (P : A → Type 0) (xs : List A) → All P xs → All (λ x. P x × (p x ≡ true)) (select p xs)
  unfolding select
  All-select P [] h = tt
  All-select P (x ∷ xs) h = elim (Bool-cases (p x)) [
    | inl e ↦ rw e ((h.0, e), All-select P xs h.1)
    | inr e ↦ rw e (All-select P xs h.1)
  ]

  All-select_inverse :
      (P : A → Type 0) (xs : List A) → All P (select p xs) → All (λ x. (p x ≡ false) ⊎ P x) xs
  unfolding select
  All-select_inverse P [] = λ h. tt
  All-select_inverse P (x ∷ xs) = elim (Bool-cases (p x)) [
    | inl e ↦ rw e (λ h. (inr h.0, All-select_inverse P xs h.1))
    | inr e ↦ rw e (λ h. (inl refl, All-select_inverse P xs h))
  ]

module _ {A : Type 0} (le : A → A → Bool) (refl_le : (x : A) → le x x ≡ true) (P : A → Type 0) where
  first-least :
      (xs : List A) {x : A}
      → IsSortedBy le xs
      → All P xs
      → first xs ≡ some x
      → P x × All (λ y. le x y ≡ true) xs
  first-least [] s h e = cc
  first-least (y ∷ ys) {x} s h e =
      let same : y ≡ x = ground arith in
      (subst P same h.0, subst (λ z. All (λ w. le z w ≡ true) (y ∷ ys)) same (refl_le y, s.0))

later_total : (a b : ActionRow) → is_later a b ≡ false → is_later b a ≡ true
later_total a b h = ground arith

later_trans : (a b c : ActionRow) → is_later a b ≡ true → is_later b c ≡ true → is_later a c ≡ true
later_trans a b c h k = ground arith

later_refl : (a : ActionRow) → is_later a a ≡ true
later_refl a = ground arith

-- Whether a row is one of the anomaly with the result that is looked for.
abbrev pub qualifies : (ActionResult → Bool) → String → ActionRow → Bool
qualifies has_result anomaly_id r = is_about anomaly_id r.anomaly_id && has_result r.result

-- The row that is found is one of the ledger, of the anomaly and with the result looked for, and
-- every other such row was executed no later.
pub latest-greatest :
    (has_result : ActionResult → Bool) (anomaly_id : String) (rows : List ActionRow)
    (row : ActionRow)
    → latest has_result anomaly_id rows ≡ some row
    → Memᴰ row rows
      × (qualifies has_result anomaly_id row ≡ true)
      × All
          (λ r.
            (qualifies has_result anomaly_id r ≡ false)
            ⊎ (leb r.executed_at row.executed_at ≡ true))
          rows
unfolding latest
latest-greatest has_result anomaly_id rows row h =
    let p = qualifies has_result anomaly_id in
    let found =
      first-least is_later later_refl (λ r. Memᴰ r rows × (p r ≡ true))
        (sort_by is_later (select p rows))
        (sort_by-IsSortedBy is_later later_total later_trans (select p rows))
        (All-sort_by is_later (λ r. Memᴰ r rows × (p r ≡ true)) (select p rows)
          (All-select p (λ r. Memᴰ r rows) rows (All-Mem rows)))
        h in
    (
      found.0.0,
      found.0.1,
      All-select_inverse p (λ r. is_later row r ≡ true) rows
          (All-sort_by_inverse is_later (λ r. is_later row r ≡ true) (select p rows) found.1),
    )
