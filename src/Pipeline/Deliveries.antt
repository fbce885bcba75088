-- ===== src/Pipeline/Deliveries.antt =====
-- The executor fed by its queue: `_callback` of the client around `handle`.
use hypertrace.Prelude.{
  String, ◌≡◌, refl, sym, ap, ◌∙◌, Bool, true, false, some, List, [], ◌∷◌, ◌++◌, if◌then◌else◌,
}
use mathlib.Core.List.{append-nil, append_assoc}
use hypertrace.Effects.{World, Exec, Result, ok, err}
use hypertrace.Messaging.Consume.{Settled, Handler, callback, deliver_all}
use hypertrace.Schemas.{RemediationRequest}
use hypertrace.Tables.{ActionRow}
use hypertrace.Executor.Cluster.{Kubernetes}
use hypertrace.Executor.Actions.Reported.{is_outcome}
use hypertrace.Executor.Handler.{handle, mode_of, outcome_row}
use hypertrace.Executor.Handler.Safety.{State, Recorded, handle-Recorded}

abbrev is_raised : {A : Type 0} → Result A → Bool
is_raised (ok a) = false
is_raised (err e) = true

-- A handler of a service as the client calls it.
abbrev pub as_handler : {M S P : Type 0} → (P → Exec M S (Unit {0})) → Handler (World M S) P
as_handler h m w = let (r, w') = h m w in (is_raised r, w')

-- The row of an outcome is that of a request.
pub record IsAnswer (m : RemediationRequest) (row : ActionRow) : Type 0 where
  pub parent : row.parent_action_id ≡ some m.action_id
  pub action : row.action_type ≡ m.action
  pub anomaly : row.anomaly_id ≡ m.anomaly_id
  pub target : row.target ≡ some m.service
  pub mode : row.mode ≡ mode_of m
  pub outcome : is_outcome row.result ≡ true

-- Deliveries, how each was settled, and the rows that they left: one row for each that was
-- acknowledged, in the order of the deliveries, and none for those that were dropped.
pub data Matched : List RemediationRequest → List Settled → List ActionRow → Type 0 where
  done : Matched [] [] []
  acknowledged :
      (m : RemediationRequest) (row : ActionRow) (ms : List RemediationRequest) (ds : List Settled)
      (rows : List ActionRow)
      → IsAnswer m row
      → Matched ms ds rows
      → Matched (m ∷ ms) (Settled.ack ∷ ds) (row ∷ rows)
  dropped :
      (m : RemediationRequest) (ms : List RemediationRequest) (ds : List Settled)
      (rows : List ActionRow)
      → Matched ms ds rows
      → Matched (m ∷ ms) (Settled.nack ∷ ds) rows

module _ (K : Kubernetes) where
  -- What the deliveries leave of a ledger.
  pub record Delivered (ms : List RemediationRequest) (log : List ActionRow)
      (p : List Settled × State K) : Type 0 where
    pub rows : List ActionRow
    pub grown : p.1.own.actions_log ≡ log ++ rows
    pub matched : Matched ms p.0 rows

  settle : Result (Unit {0}) × State K → Settled × State K
  settle (ok u, w) = (Settled.ack, w)
  settle (err e, w) = (Settled.nack, w)

  one_more :
      (m : RemediationRequest) (ms : List RemediationRequest) (w : State K)
      (p : Result (Unit {0}) × State K) (q : List Settled × State K)
      → Recorded K m w p
      → Delivered ms (settle p).1.own.actions_log q
      → Delivered (m ∷ ms) w.own.actions_log ((settle p).0 ∷ q.0, q.1)
  unfolding settle
  one_more m ms w (ok u, w') q (at, result, d, h, rows) rest =
      let row = outcome_row (w.uuid w.made) at m result d in
      record {
        rows = row ∷ rest.rows;
        grown =
            rest.grown
            ∙ ap (λ l. l ++ rest.rows) rows
            ∙ append_assoc w.own.actions_log (row ∷ []) rest.rows;
        matched =
            acknowledged m row ms q.0 rest.rows
              (record {
                parent = refl;
                action = refl;
                anomaly = refl;
                target = refl;
                mode = refl;
                outcome = h;
              })
              rest.matched;
      }
  one_more m ms w (err e, w') q same rest = record {
    rows = rest.rows;
    grown = rest.grown ∙ ap (λ l. l ++ rest.rows) same;
    matched = dropped m ms q.0 rest.rows rest.matched;
  }

  settle-eq :
      (p : Result (Unit {0}) × State K)
      → (if is_raised p.0 then (Settled.nack, p.1) else (Settled.ack, p.1)) ≡ settle p
  unfolding settle
  settle-eq (ok u, w) = refl
  settle-eq (err e, w) = refl

  callback-settle :
      (prefixes : List String) (m : RemediationRequest) (w : State K)
      → callback (as_handler (handle K prefixes)) m w ≡ settle (handle K prefixes m w)
  unfolding callback
  callback-settle prefixes m w = settle-eq (handle K prefixes m w)

  -- Whatever requests the queue of the executor delivers, each is settled once and in order: those
  -- whose handling returned are acknowledged, and each leaves exactly one row in the ledger, in the
  -- order of the deliveries, which names its request; those whose handling raised are dropped, and
  -- leave none; nothing else is written.
  pub deliver_all-Delivered :
      (prefixes : List String) (ms : List RemediationRequest) (w : State K)
      → Delivered ms w.own.actions_log (deliver_all (as_handler (handle K prefixes)) ms w)
  unfolding deliver_all
  deliver_all-Delivered prefixes [] w = record {
    rows = [];
    grown = sym (append-nil w.own.actions_log);
    matched = done;
  }
  deliver_all-Delivered prefixes (m ∷ ms) w = rw (callback-settle prefixes m w) (
      let p = handle K prefixes m w in
      let rest = deliver_all-Delivered prefixes ms (settle p).1 in
      one_more m ms w p _ (handle-Recorded K prefixes m w) rest)
