-- ===== src/Messaging.antt =====
-- shared/hypertrace_common/hypertrace_common/messaging.py: the RabbitMQ client.
-- pika is not part of the repository: the n-th call of it answers `replies n`, an argument of the
-- state. The messages for which a call of `basic_publish` returned are kept in `sent`, in order. The
-- client asks for no publisher confirms, so what the broker took of a call that raised is not known.
pub mod Publish
pub mod Consume
pub mod Backoff
use hypertrace.Prelude.{
  ℕ, ◌+◌, String, Bool, true, false, not, ◌&&◌, ◌||◌, Option, none, some, List, [], ◌∷◌, ◌++◌,
  if◌then◌else◌,
}

-- How one call of pika ends. `amqp_error` and `os_error` are the exceptions that the client catches.
pub data Reply : Type 0 where
  accepted amqp_error os_error other_error : Reply

abbrev pub exchange_name : String
exchange_name = "hypertrace.events"

abbrev pub routing_key_metric : String
routing_key_metric = "metric.raw"

abbrev pub routing_key_lifecycle : String
routing_key_lifecycle = "event.lifecycle"

abbrev pub routing_key_cost : String
routing_key_cost = "cost.event"

abbrev pub routing_key_anomaly : String
routing_key_anomaly = "anomaly.flagged"

abbrev pub routing_key_remediation : String
routing_key_remediation = "remediation.requested"

abbrev pub routing_key_security : String
routing_key_security = "security.signal"

abbrev pub routing_key_traffic : String
routing_key_traffic = "traffic.sample"

-- `except (pika.exceptions.AMQPError, OSError)`
abbrev pub is_caught : Reply → Bool
is_caught Reply.amqp_error = true
is_caught Reply.os_error = true
is_caught _ = false

-- What pika knows of a connection: a dead one that nobody has written to still reads as open.
pub record Connection : Type 0 where
  pub is_closed : Bool

pub record Client (M : Type 0) : Type 0 where
  pub connection : Option Connection
  pub channel : Bool
  pub stopping : Bool
  pub replies : ℕ → Reply
  pub calls : ℕ
  pub sent : List (String × M)

-- `RabbitMQClient.__init__`, over the broker's replies
abbrev pub new : {M : Type 0} → (ℕ → Reply) → Client M
new replies = record {
  connection = none;
  channel = false;
  stopping = false;
  replies = replies;
  calls = 0;
  sent = [];
}

pub data Outcome (A : Type 0) : Type 0 where
  ok : A → Outcome A
  raised : Reply → Outcome A

module _ {M : Type 0} where
  -- One call of pika.
  unfoldable pub call : Client M → Reply × Client M
  call c = (c.replies c.calls, record c { calls = c.calls + 1 })

  abbrev pub needs_connect : Client M → Bool
  needs_connect c = elim c.connection [ none ↦ true | some k ↦ k.is_closed ]

  -- `exchange_declare` on a channel that was just opened
  declare : Client M → Reply × Client M
  unfolding call
  declare c = call (record c { channel = true })

  open_channel : Client M → Reply × Client M
  unfolding call declare
  open_channel c =
      let (r, c') = call (record c { connection = some (record { is_closed = false }) }) in
      elim r [ Reply.accepted ↦ declare c' | e ↦ (e, c') ]

  -- `_ensure_channel`: connect, open the channel and declare the exchange, unless connected.
  unfoldable pub ensure_channel : Client M → Reply × Client M
  unfolding call open_channel
  ensure_channel c =
      if needs_connect c
      then (let (r, c') = call c in elim r [ Reply.accepted ↦ open_channel c' | e ↦ (e, c') ])
      else (Reply.accepted, c)

  -- `_discard_connection`. Whatever closing the connection raises is swallowed.
  unfoldable pub discard_connection : Client M → Client M
  unfolding call
  discard_connection c =
      let c' = (if needs_connect c then c else (call c).1) in
      record c' { connection = none; channel = false }

  -- One round of `publish`'s `try`.
  unfoldable pub attempt : String → M → Client M → Reply × Client M
  unfolding ensure_channel call
  attempt key payload c =
      let (r, c') = ensure_channel c in
      elim r [
        | Reply.accepted ↦
            let (s, c'') = call c' in
            elim s [
              | Reply.accepted ↦
                  (Reply.accepted, record c'' { sent = c''.sent ++ (key, payload) ∷ [] })
              | e ↦ (e, c'')
            ]
        | e ↦ (e, c')
      ]

  -- `publish`: a second attempt follows a first one that failed with a caught exception.
  unfoldable pub publish : String → M → Client M → Outcome (Unit {0}) × Client M
  publish key payload c =
      let (r, c1) = attempt key payload c in
      elim r [
        | Reply.accepted ↦ (ok tt, c1)
        | Reply.other_error ↦ (raised Reply.other_error, c1)
        | e ↦
            let (s, c2) = attempt key payload (discard_connection c1) in
            elim s [
              | Reply.accepted ↦ (ok tt, c2)
              | Reply.other_error ↦ (raised Reply.other_error, c2)
              | g ↦ (raised g, discard_connection c2)
            ]
      ]

  -- `close`
  unfoldable pub close : Client M → Client M
  unfolding call
  close c = let c' = record c { stopping = true } in if needs_connect c then c' else (call c').1
