-- ===== src/Bff/Alerts/Rows.antt =====
-- What holds of every subscriber, through the operations on all of them.
use hypertrace.Prelude.{ℕ, List, [], ◌∷◌, All, ◌==◌, Bool-cases, inl, inr}
use hypertrace.Bff.Alerts.{Subscriber, discard, put_nowait, fan_out, take_one, send_next}

module _ {M : Type 0} (P Q : Subscriber M → Type 0) where
  pub All-fan_out :
      (m : M) (rows : List (Subscriber M))
      → ((s : Subscriber M) → P s → Q (put_nowait m s))
      → All P rows
      → All Q (fan_out m rows)
  unfolding fan_out
  All-fan_out m [] f h = tt
  All-fan_out m (s ∷ rest) f h = (f s h.0, All-fan_out m rest f h.1)

module _ {M : Type 0} (P : Subscriber M → Type 0) where
  pub All-discard : (id : ℕ) (rows : List (Subscriber M)) → All P rows → All P (discard id rows)
  unfolding discard
  All-discard id [] h = tt
  All-discard id (s ∷ rest) h = elim (Bool-cases (s.id == id)) [
    | inl e ↦ rw e (All-discard id rest h.1)
    | inr e ↦ rw e (h.0, All-discard id rest h.1)
  ]

  pub All-send_next :
      (id : ℕ) (rows : List (Subscriber M))
      → ((s : Subscriber M) → P s → P (take_one s))
      → All P rows
      → All P (send_next id rows)
  unfolding send_next
  All-send_next id [] f h = tt
  All-send_next id (s ∷ rest) f h = (
    elim (Bool-cases (s.id == id)) [ inl e ↦ rw e (f s h.0) | inr e ↦ rw e h.0 ],
    All-send_next id rest f h.1,
  )
