-- ===== src/Executor/Handler/Gates.antt =====
-- What a rollback needs to touch the cluster: a row of the ledger.
use hypertrace.Prelude.{
  String, ◌≡◌, ◌≢◌, refl, false, Option, none, some, List, [], ◌∷◌, str_eq, eq_iff, arith,
  Option-cases, Bool-cases, inl, inr,
}
use mathlib.Core.List.{Memᴰ}
use mathlib.Core.Path.{sym}
use hypertrace.Schemas.{RemediationRequest}
use hypertrace.Tables.{ActionRow, PriorState}
use hypertrace.Executor.Cluster.{Kubernetes}
use hypertrace.Executor.Handler.{
  load_action, settle, roll_back_unless, roll_back_before, roll_back_from, roll_back,
  roll_back_request, handle,
}
use hypertrace.Executor.Handler.Safety.{State, is_past}

load_action-Memᴰ :
    (id : String) (rows : List ActionRow) (row : ActionRow)
    → load_action id rows ≡ some row
    → Memᴰ row rows × (row.id ≡ id)
unfolding load_action
load_action-Memᴰ id [] row h = ground arith
load_action-Memᴰ id (r ∷ rows) row h = elim (Bool-cases (str_eq r.id id)) [
  | inl q ↦
      let same : r ≡ row = ground arith in (Memᴰ.head (sym same), ground (arith, eq_iff r.id id))
  | inr q ↦ let (m, e) = load_action-Memᴰ id rows row (ground arith) in (Memᴰ.tail m, e)
]

module _ (K : Kubernetes) where
  -- What a rollback of a request requires: the request names a row of the ledger, which recorded
  -- what it replaced, and whose deadline, if it has one, has not passed.
  pub record MayUndo (m : RemediationRequest) (w : State K) : Type 0 where
    pub row : ActionRow
    pub prior : PriorState
    pub named : m.target_action_id ≡ some row.id
    pub kept : Memᴰ row w.own.actions_log
    pub replaced : row.prior_state ≡ some prior
    pub in_time : is_past (w.clock w.reads) row.rollback_deadline ≡ false

  roll_back-some :
      (m : RemediationRequest) (target : Option ActionRow) (w : State K)
      → (roll_back K m target w).1.own.cluster ≢ w.own.cluster
      → (row : ActionRow) × (prior : PriorState) × (target ≡ some row)
        × (row.prior_state ≡ some prior)
        × (is_past (w.clock w.reads) row.rollback_deadline ≡ false)
  unfolding roll_back roll_back_from roll_back_before roll_back_unless settle
  roll_back-some m none w h = absurd (h refl)
  roll_back-some m (some row) w h = elim (Option-cases row.prior_state) [
    | inl q ↦ absurd (h (ground arith))
    | inr (prior, q) ↦ (row, prior, refl, q, ground arith)
  ]

  request-MayUndo :
      (m : RemediationRequest) (id : Option String) (w : State K)
      → m.target_action_id ≡ id
      → (roll_back_request K m id w).1.own.cluster ≢ w.own.cluster
      → MayUndo m w
  unfolding roll_back_request
  request-MayUndo m none w e h = absurd (h refl)
  request-MayUndo m (some id) w e h =
      let (row, prior, found, replaced, in_time) =
        roll_back-some m (load_action id w.own.actions_log) w h in
      let (kept, same) = load_action-Memᴰ id w.own.actions_log row found in
      record {
        row = row;
        prior = prior;
        named = ground (arith, e, same);
        kept = kept;
        replaced = replaced;
        in_time = in_time;
      }

  -- A request whose action is `rollback` changes the cluster only if it names, by its identifier, a
  -- row that stands in the ledger, that recorded what it replaced, and whose deadline, where it has
  -- one, has not passed.
  pub roll_back_gates :
      (prefixes : List String) (m : RemediationRequest) (w : State K)
      → m.action ≡ "rollback"
      → (handle K prefixes m w).1.own.cluster ≢ w.own.cluster
      → MayUndo m w
  unfolding handle
  roll_back_gates prefixes m w a h =
      request-MayUndo m m.target_action_id w refl (rw ((eq_iff m.action "rollback").1 a) at h)
