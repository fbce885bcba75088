-- ===== src/Examples/Publishing.antt =====
-- The theorems on the RabbitMQ client, at brokers that accept, that died idle, and that stay away.
use hypertrace.Prelude.{ℕ, ◌≢◌, ◌≡◌, refl, true, false, some, [], ◌∷◌, ◌==◌, if◌then◌else◌, arith}
use hypertrace.Messaging.{Reply, Client, ok, new, publish}
use hypertrace.Messaging.Publish.{IsStale, publish_stale}
use hypertrace.Messaging.Consume.{Ending, consume}
use hypertrace.Messaging.Backoff.{backoff, consume_survives, consume-backoff}
use hypertrace.Examples.{willing}

-- A client whose connection died while it was idle: the first call fails.
abbrev stale : Client ℕ
stale = record willing {
  connection = some (record { is_closed = false });
  channel = true;
  replies = λ n. if n == 0 then Reply.amqp_error else Reply.accepted;
}

stale-IsStale : IsStale stale
stale-IsStale = record { looks_open = refl; write_fails = refl; then_accepts = λ n h. ground arith }

publish_stale_example : (publish "cost.event" 5 stale).0 ≡ ok tt
publish_stale_example = publish_stale "cost.event" 5 stale stale-IsStale

abbrev absent : Client ℕ
absent = new (λ _. Reply.amqp_error)

never_other : (i : ℕ) → Reply.amqp_error ≢ Reply.other_error
never_other i = λ e. ground (arith, e)

consume_survives_example :
    (consume 8 (λ _. false) ("cost.event" ∷ []) absent).ending ≡ Ending.looping
consume_survives_example = consume_survives 8 ("cost.event" ∷ []) absent never_other

always_away : (i : ℕ) → absent.replies i ≡ Reply.amqp_error
always_away i = refl

consume-backoff_example : (consume 8 (λ _. false) ("cost.event" ∷ []) absent).sleeps ≡ backoff 8 1
consume-backoff_example = consume-backoff 8 ("cost.event" ∷ []) absent always_away
