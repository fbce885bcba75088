-- ===== src/Bff/Alerts/Bounds.antt =====
-- How much a client's queue holds, and what reaches the client.
use hypertrace.Prelude.{
  ℕ, suc, ◌+◌, zero, ◌-◌, take, map, sym, ◌∙◌, ◌≤◌, ◌≡◌, refl, ap, true, List, [], ◌∷◌, ◌++◌,
  length, length-append, All, All-append, arith, Bool-cases, inl, inr,
}
use mathlib.Core.List.{append-nil, append_assoc}
use hypertrace.Bff.Alerts.Rows.{All-fan_out, All-discard, All-send_next}
use hypertrace.Bff.Alerts.{
  max_queued_alerts_per_client, Subscriber, Broadcaster, subscribe, unsubscribe, put_nowait,
  fan_out, on_message, start, take_one, take_from, Event, subscribed, started, unsubscribed, sent,
  flagged, step, run, idle,
}

module _ {M : Type 0} where
  abbrev pub IsBounded : Subscriber M → Type 0
  IsBounded s = length s.queue ≤ max_queued_alerts_per_client

  put_nowait-IsBounded : (m : M) (s : Subscriber M) → IsBounded s → IsBounded (put_nowait m s)
  unfolding put_nowait
  put_nowait-IsBounded m s h = ground (arith, length-append s.queue (m ∷ []))

  -- The loop's turn for the client itself.
  taken : (s : Subscriber M) → IsBounded s → IsBounded (take_one s)
  unfolding take_one
  taken s h =
      elim s.queue as (λ q. length q ≤ max_queued_alerts_per_client → IsBounded (take_from s q)) [
        | [] ↦ λ k. h
        | m ∷ later ↦ λ k. ground arith
      ]
        h

  step-IsBounded :
      (e : Event M) (b : Broadcaster M)
      → All IsBounded b.subscribers
      → All IsBounded (step e b).subscribers
  unfolding step subscribe start unsubscribe on_message
  step-IsBounded subscribed b h = All-append IsBounded b.subscribers _ h (omega arith, tt)
  step-IsBounded started b h = h
  step-IsBounded (unsubscribed id) b h = All-discard IsBounded id b.subscribers h
  step-IsBounded (sent id) b h = All-send_next IsBounded id b.subscribers taken h
  step-IsBounded (flagged m) b h = elim (Bool-cases b.running) [
    | inl e ↦ rw e (All-fan_out IsBounded IsBounded m b.subscribers (put_nowait-IsBounded m) h)
    | inr e ↦ rw e h
  ]

  run-IsBounded_from :
      (events : List (Event M)) (b : Broadcaster M)
      → All IsBounded b.subscribers
      → All IsBounded (run events b).subscribers
  unfolding run
  run-IsBounded_from [] b h = h
  run-IsBounded_from (e ∷ events) b h = run-IsBounded_from events (step e b) (step-IsBounded e b h)

  -- However clients come and go, and however slow they are, no queue ever holds more than 100 alerts.
  pub run-IsBounded : (events : List (Event M)) → All IsBounded (run events idle).subscribers
  run-IsBounded events = run-IsBounded_from events idle tt

  -- A sequence of alerts put into one queue.
  abbrev pub put_all : List M → Subscriber M → Subscriber M
  put_all [] s = s
  put_all (m ∷ ms) s = put_all ms (put_nowait m s)

  room :
      (m : M) (s : Subscriber M)
      → suc (length s.queue) ≤ max_queued_alerts_per_client
      → put_nowait m s ≡ record s { queue = s.queue ++ m ∷ [] }
  unfolding put_nowait
  room m s h = ground arith

  put_all_full :
      (ms : List M) (s : Subscriber M)
      → length s.queue ≡ max_queued_alerts_per_client
      → put_all ms s ≡ record s { dropped = s.dropped + length ms }
  unfolding put_nowait
  put_all_full [] s h = ground arith
  put_all_full (m ∷ ms) s h =
      let one : put_nowait m s ≡ record s { dropped = s.dropped + 1 } = ground arith in
      ap (put_all ms) one
      ∙ put_all_full ms (record s { dropped = s.dropped + 1 }) h
      ∙ ap (λ n. record s { dropped = n }) (omega arith)

  take-nil : (k : ℕ) → take {A = M} k [] ≡ []
  take-nil zero = refl
  take-nil (suc k) = refl

  -- A queue with room for k alerts takes the first k in their order, and drops just the others.
  put_all-keeps :
      (ms : List M) (k : ℕ) (s : Subscriber M)
      → length s.queue + k ≡ max_queued_alerts_per_client
      → put_all ms s
        ≡ record s { queue = s.queue ++ take k ms; dropped = s.dropped + (length ms - k) }
  put_all-keeps [] k s h =
      ap (λ q. record s { queue = q })
        (sym (append-nil s.queue) ∙ ap (λ q. s.queue ++ q) (sym (take-nil k)))
      ∙ ap (λ n. record s { queue = s.queue ++ take k []; dropped = n }) (omega arith)
  put_all-keeps (m ∷ ms) zero s h =
      put_all_full (m ∷ ms) s (omega arith)
      ∙ ap (λ q. record s { queue = q; dropped = s.dropped + length (m ∷ ms) })
          (sym (append-nil s.queue))
      ∙ ap (λ n. record s { queue = s.queue ++ []; dropped = n }) (omega arith)
  put_all-keeps (m ∷ ms) (suc k) s h =
      let one : put_nowait m s ≡ record s { queue = s.queue ++ m ∷ [] } = room m s (omega arith) in
      ap (put_all ms) one
      ∙ put_all-keeps ms k (record s { queue = s.queue ++ m ∷ [] })
          (omega (arith, length-append s.queue (m ∷ [])))
      ∙ ap (λ q. record s { queue = q; dropped = s.dropped + (length ms - k) })
          (append_assoc s.queue (m ∷ []) (take k ms))
      ∙ ap (λ n. record s { queue = s.queue ++ m ∷ take k ms; dropped = n }) (omega arith)

  map_id : (rows : List (Subscriber M)) → map (put_all []) rows ≡ rows
  map_id [] = refl
  map_id (s ∷ rest) = ap (λ xs. s ∷ xs) (map_id rest)

  map-fan_out :
      (m : M) (ms : List M) (rows : List (Subscriber M))
      → map (put_all ms) (fan_out m rows) ≡ map (put_all (m ∷ ms)) rows
  unfolding fan_out
  map-fan_out m ms [] = refl
  map-fan_out m ms (s ∷ rest) = ap (λ xs. put_all (m ∷ ms) s ∷ xs) (map-fan_out m ms rest)

  -- Alerts that arrive while clients only wait reach each queue as if it were the only one, so a slow
  -- client takes nothing from another.
  run-flagged :
      (ms : List M) (b : Broadcaster M)
      → b.running ≡ true
      → run (map flagged ms) b ≡ record b { subscribers = map (put_all ms) b.subscribers }
  unfolding run step on_message
  run-flagged [] b h = ap (λ rows. record b { subscribers = rows }) (sym (map_id b.subscribers))
  run-flagged (m ∷ ms) b h =
      let one : on_message m b ≡ record b { subscribers = fan_out m b.subscribers } =
        ground arith in
      ap (run (map flagged ms)) one
      ∙ run-flagged ms (record b { subscribers = fan_out m b.subscribers }) h
      ∙ ap (λ rows. record b { subscribers = rows }) (map-fan_out m ms b.subscribers)
