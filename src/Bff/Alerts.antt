-- ===== src/Bff/Alerts.antt =====
-- services/api-bff/app/alert_stream.py, and the loop of `stream_alerts` in app/main.py: the fan-out of alerts to the queues of the clients. A queue
-- is what it holds, the oldest first; the set of subscribers is a list of named queues.
pub mod Bounds
pub mod Rows
pub mod Served
use hypertrace.Prelude.{
  ℕ, suc, ◌+◌, ◌≤◌, ◌<◌, ◌≡◌, refl, ap, Bool, true, false, List, [], ◌∷◌, ◌++◌, length,
  length-append, All, Option, none, some, leb, ◌==◌, arith, if◌then◌else◌, min, lookup,
}

abbrev pub max_queued_alerts_per_client : ℕ
max_queued_alerts_per_client = 100

pub record Subscriber (M : Type 0) : Type 0 where
  pub id : ℕ
  pub queue : List M
  -- What the client has been sent.
  pub received : List M
  -- How often the service has logged that an alert was dropped for it.
  pub dropped : ℕ

-- `running` says whether `start` has given it a loop.
pub record Broadcaster (M : Type 0) : Type 0 where
  pub subscribers : List (Subscriber M)
  pub next : ℕ
  pub running : Bool

module _ {M : Type 0} where
  unfoldable pub subscribe : Broadcaster M → Broadcaster M
  subscribe b = record b {
    subscribers =
        b.subscribers ++ record { id = b.next; queue = []; received = []; dropped = 0 } ∷ [];
    next = b.next + 1;
  }

  unfoldable pub discard : ℕ → List (Subscriber M) → List (Subscriber M)
  discard id [] = []
  discard id (s ∷ rest) = let kept = discard id rest in if s.id == id then kept else s ∷ kept

  unfoldable pub unsubscribe : ℕ → Broadcaster M → Broadcaster M
  unsubscribe id b = record b { subscribers = discard id b.subscribers }

  -- `queue.put_nowait(message)`, with `QueueFull` caught.
  unfoldable pub put_nowait : M → Subscriber M → Subscriber M
  put_nowait message s =
      if leb max_queued_alerts_per_client (length s.queue)
      then record s { dropped = s.dropped + 1 }
      else record s { queue = s.queue ++ message ∷ [] }

  unfoldable pub fan_out : M → List (Subscriber M) → List (Subscriber M)
  fan_out message [] = []
  fan_out message (s ∷ rest) = put_nowait message s ∷ fan_out message rest

  -- `_on_message`, whose call on the loop is run at once.
  unfoldable pub on_message : M → Broadcaster M → Broadcaster M
  on_message message b =
      if b.running then record b { subscribers = fan_out message b.subscribers } else b

  unfoldable pub start : Broadcaster M → Broadcaster M
  start b = record b { running = true }

  -- A turn of the loop of `stream_alerts`: it waits while the queue is empty.
  unfoldable pub take_from : Subscriber M → List M → Subscriber M
  take_from s [] = s
  take_from s (m ∷ later) = record s { queue = later; received = s.received ++ m ∷ [] }

  unfoldable pub take_one : Subscriber M → Subscriber M
  unfolding take_from
  take_one s = take_from s s.queue

  unfoldable pub send_next : ℕ → List (Subscriber M) → List (Subscriber M)
  send_next id [] = []
  send_next id (s ∷ rest) = (if s.id == id then take_one s else s) ∷ send_next id rest

-- The steps of the event loop.
pub data Event (M : Type 0) : Type 0 where
  subscribed started : Event M
  unsubscribed sent : ℕ → Event M
  flagged : M → Event M

module _ {M : Type 0} where
  unfoldable pub step : Event M → Broadcaster M → Broadcaster M
  step subscribed b = subscribe b
  step started b = start b
  step (unsubscribed id) b = unsubscribe id b
  step (sent id) b = record b { subscribers = send_next id b.subscribers }
  step (flagged m) b = on_message m b

  unfoldable pub run : List (Event M) → Broadcaster M → Broadcaster M
  run [] b = b
  run (e ∷ events) b = run events (step e b)

  -- `AlertBroadcaster()`
  abbrev pub idle : Broadcaster M
  idle = record { subscribers = []; next = 0; running = false }
