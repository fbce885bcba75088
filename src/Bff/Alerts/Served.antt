-- ===== src/Bff/Alerts/Served.antt =====
-- What each client gets of the alerts that were flagged since it subscribed.
use mathlib.Core.List.{Sublistᴰ, append-nil, append_assoc}
use mathlib.Core.List.Sublistᴰ
use mathlib.Core.Path.{subst}
use hypertrace.Prelude.{
  ℕ, ◌+◌, ◌<◌, ◌≤◌, ◌≡◌, refl, sym, ap, ◌∙◌, Bool, true, false, ◌&&◌, List, [], ◌∷◌, ◌++◌, length,
  length-append, All, All-map, All-append, ltb, leb, arith, Bool-cases, inl, inr, if◌then◌else◌,
}
use hypertrace.Bff.Alerts.{
  max_queued_alerts_per_client, Subscriber, Broadcaster, subscribe, unsubscribe, put_nowait,
  fan_out, on_message, start, take_one, take_from, Event, subscribed, started, unsubscribed, sent,
  flagged, step, run, idle,
}
use hypertrace.Bff.Alerts.Rows.{All-fan_out, All-discard, All-send_next}

module _ {M : Type 0} where
  -- The alerts that are flagged, once the stream runs, after the client numbered `id` subscribed;
  -- `next` is the number of the next client to subscribe.
  abbrev pub since : ℕ → ℕ → Bool → List (Event M) → List M
  since id next running [] = []
  since id next running (subscribed ∷ es) = since id (next + 1) running es
  since id next running (started ∷ es) = since id next true es
  since id next running (unsubscribed k ∷ es) = since id next running es
  since id next running (sent k ∷ es) = since id next running es
  since id next running (flagged m ∷ es) =
      let rest = since id next running es in if running && ltb id next then m ∷ rest else rest

  -- A client has received, or has waiting, some of its alerts in their order, and the rest of them
  -- were logged as dropped.
  pub record Served (alerts : List M) (s : Subscriber M) : Type 0 where
    pub in_order : Sublistᴰ (s.received ++ s.queue) alerts
    pub none_lost : length alerts ≡ length (s.received ++ s.queue) + s.dropped

  put_nowait-Served :
      (alerts : List M) (m : M) (s : Subscriber M)
      → Served alerts s
      → Served (alerts ++ m ∷ []) (put_nowait m s)
  unfolding put_nowait
  put_nowait-Served alerts m s h =
      elim (Bool-cases (leb max_queued_alerts_per_client (length s.queue))) [
        | inl e ↦ rw e (record {
          in_order =
              subst (λ xs. Sublistᴰ xs (alerts ++ m ∷ [])) (append-nil (s.received ++ s.queue))
                (Sublistᴰ.append h.in_order (Sublistᴰ.cons Sublistᴰ.slnil));
          none_lost = omega (arith, h.none_lost, length-append alerts (m ∷ []));
        })
        | inr e ↦ rw e (record {
          in_order =
              subst (λ xs. Sublistᴰ xs (alerts ++ m ∷ []))
                (append_assoc s.received s.queue (m ∷ []))
                (Sublistᴰ.append h.in_order (Sublistᴰ.cons-cons refl Sublistᴰ.slnil));
          none_lost = omega (
            arith,
            h.none_lost,
            length-append alerts (m ∷ []),
            length-append s.received (s.queue ++ m ∷ []),
            length-append s.queue (m ∷ []),
            length-append s.received s.queue,
          );
        })
      ]

  put_nowait-id : (m : M) (s : Subscriber M) → (put_nowait m s).id ≡ s.id
  unfolding put_nowait
  put_nowait-id m s = ground arith

  -- A client whose number is taken, served of what its number has a right to.
  IsKnown : ℕ → (ℕ → List M) → Subscriber M → Type 0
  IsKnown next alerts s = (s.id < next) × Served (alerts s.id) s

  taken-IsKnown :
      (next : ℕ) (alerts : ℕ → List M) (s : Subscriber M) (queue : List M)
      → s.queue ≡ queue
      → IsKnown next alerts s
      → IsKnown next alerts (take_from s queue)
  unfolding take_from IsKnown
  taken-IsKnown next alerts s [] e h = h
  taken-IsKnown next alerts s (m ∷ later) e h =
      let same : s.received ++ s.queue ≡ (s.received ++ m ∷ []) ++ later =
        ap (λ q. s.received ++ q) e ∙ sym (append_assoc s.received (m ∷ []) later) in
      (
        h.0,
        record {
          in_order = subst (λ xs. Sublistᴰ xs (alerts s.id)) same h.1.in_order;
          none_lost = h.1.none_lost ∙ ap (λ xs. length xs + s.dropped) same;
        },
      )

  -- The alerts of every number after one that is flagged.
  also : M → ℕ → (ℕ → List M) → ℕ → List M
  also m next alerts id = if ltb id next then alerts id ++ m ∷ [] else alerts id

  put_nowait-IsKnown :
      (m : M) (next : ℕ) (alerts : ℕ → List M) (s : Subscriber M)
      → IsKnown next alerts s
      → IsKnown next (also m next alerts) (put_nowait m s)
  unfolding IsKnown also
  put_nowait-IsKnown m next alerts s h =
      let known : ltb s.id next ≡ true = ground (arith, h.0) in
      let same : alerts s.id ++ m ∷ [] ≡ also m next alerts s.id = rw known refl in
      subst (λ id. (id < next) × Served (also m next alerts id) (put_nowait m s))
        (sym (put_nowait-id m s))
        (
          h.0,
          subst (λ xs. Served xs (put_nowait m s)) same (put_nowait-Served (alerts s.id) m s h.1),
        )

  also-since :
      (m : M) (next : ℕ) (alerts : ℕ → List M) (id : ℕ) (rest : List M)
      → also m next alerts id ++ rest
        ≡ alerts id ++ (if true && ltb id next then m ∷ rest else rest)
  unfolding also
  also-since m next alerts id rest = elim (Bool-cases (ltb id next)) [
    | inl e ↦ rw e (append_assoc (alerts id) (m ∷ []) rest)
    | inr e ↦ rw e refl
  ]

  -- What every client has a right to after the events.
  abbrev AreServed : (ℕ → List M) → ℕ → Bool → List (Event M) → List (Subscriber M) → Type 0
  AreServed alerts next running es rows =
      All (λ s. Served (alerts s.id ++ since s.id next running es) s) rows

  new-Served :
      (id : ℕ) (alerts : List M)
      → alerts ≡ []
      → Served alerts (record { id = id; queue = []; received = []; dropped = 0 })
  new-Served id alerts e =
      subst (λ xs. Served xs (record { id = id; queue = []; received = []; dropped = 0 })) (sym e)
        (record { in_order = Sublistᴰ.slnil; none_lost = refl })

  also-none :
      (m : M) (next : ℕ) (alerts : ℕ → List M)
      → ((id : ℕ) → next ≤ id → alerts id ≡ [])
      → (id : ℕ) → next ≤ id
      → also m next alerts id ≡ []
  unfolding also
  also-none m next alerts none id k =
      let unknown : ltb id next ≡ false = ground (arith, k) in rw unknown (none id k)

  AreServed-flagged :
      (m : M) (next : ℕ) (alerts : ℕ → List M) (es : List (Event M)) (rows : List (Subscriber M))
      → AreServed (also m next alerts) next true es rows
      → AreServed alerts next true (flagged m ∷ es) rows
  AreServed-flagged m next alerts es rows h =
      All-map (λ s. Served (also m next alerts s.id ++ since s.id next true es) s) _ rows
        (λ s k.
          subst (λ xs. Served xs s) (also-since m next alerts s.id (since s.id next true es)) k)
        h

  run-Served_from :
      (es : List (Event M)) (b : Broadcaster M) (alerts : ℕ → List M)
      → ((id : ℕ) → b.next ≤ id → alerts id ≡ [])
      → All (IsKnown b.next alerts) b.subscribers
      → AreServed alerts b.next b.running es (run es b).subscribers
  unfolding run step subscribe start unsubscribe on_message IsKnown take_one
  run-Served_from [] b alerts none h =
      All-map (IsKnown b.next alerts) _ b.subscribers
        (λ s k. subst (λ xs. Served xs s) (sym (append-nil (alerts s.id))) k.1) h
  run-Served_from (subscribed ∷ es) b alerts none h =
      run-Served_from es (subscribe b) alerts (λ id k. none id (omega (arith, k)))
        (All-append (IsKnown (b.next + 1) alerts) b.subscribers _
          (All-map (IsKnown b.next alerts) (IsKnown (b.next + 1) alerts) b.subscribers
            (λ s k. (omega (arith, k.0), k.1)) h)
          ((omega arith, new-Served b.next (alerts b.next) (none b.next (omega arith))), tt))
  run-Served_from (started ∷ es) b alerts none h = run-Served_from es (start b) alerts none h
  run-Served_from (unsubscribed id ∷ es) b alerts none h =
      run-Served_from es (unsubscribe id b) alerts none
        (All-discard (IsKnown b.next alerts) id b.subscribers h)
  run-Served_from (sent id ∷ es) b alerts none h =
      run-Served_from es (step (sent id) b) alerts none (
        All-send_next (IsKnown b.next alerts) id b.subscribers
          (λ s k. taken-IsKnown b.next alerts s s.queue refl k) h)
  run-Served_from (flagged m ∷ es) b alerts none h = elim (Bool-cases b.running) [
    | inl e ↦
        let rows = fan_out m b.subscribers in
        let later =
          run-Served_from es (record b { subscribers = rows }) (also m b.next alerts)
            (also-none m b.next alerts none)
            (All-fan_out (IsKnown b.next alerts) (IsKnown b.next (also m b.next alerts)) m
              b.subscribers (put_nowait-IsKnown m b.next alerts) h) in
        rw e (AreServed-flagged m b.next alerts es _ (rw e at later))
    | inr e ↦ let later = run-Served_from es b alerts none h in rw e (rw e at later)
  ]

  -- However clients come and go, and however slow they are: of the alerts that are flagged after a
  -- client subscribed and once the stream runs, the client has received, or has waiting, some in
  -- their order, and the others are exactly those that were logged as dropped for it.
  pub run-Served :
      (es : List (Event M)) → All (λ s. Served (since s.id 0 false es) s) (run es idle).subscribers
  run-Served es = run-Served_from es idle (λ id. []) (λ id k. refl) tt
