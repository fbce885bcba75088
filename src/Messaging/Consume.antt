-- ===== src/Messaging/Consume.antt =====
-- `RabbitMQClient.consume` of messaging.py: the setup, the loop with its backoff, and the callback
-- that settles each delivery.
use hypertrace.Prelude.{ℕ, zero, suc, ◌*◌, String, Bool, List, [], ◌∷◌, if◌then◌else◌, min}
use hypertrace.Messaging.{Reply, Client, call, ensure_channel, discard_connection}

-- How the loop ends: by the flag, by an exception that it does not catch, or not yet.
pub data Ending : Type 0 where
  stopped looping : Ending
  crashed : Reply → Ending

-- The seconds slept after each failure, and the ending.
pub record Run : Type 0 where
  pub sleeps : List ℕ
  pub ending : Ending

abbrev pub max_delay : ℕ
max_delay = 30

module _ {M : Type 0} where
  -- One call for each element of a list, stopping at the first that raises.
  unfoldable pub bind_all : List String → Client M → Reply × Client M
  unfolding call
  bind_all [] c = (Reply.accepted, c)
  bind_all (key ∷ keys) c =
      let (r, c') = call c in elim r [ Reply.accepted ↦ bind_all keys c' | e ↦ (e, c') ]

  infixl 5 ◌then_call◌
  abbrev pub ◌then_call◌ : Reply × Client M → (Client M → Reply × Client M) → Reply × Client M
  ◌then_call◌ (Reply.accepted, c) g = g c
  ◌then_call◌ (e, c) g = (e, c)

  -- The body of the `try` up to `basic_consume`: declare the queue, bind each routing key, set the
  -- prefetch count, register the consumer.
  unfoldable pub setup : List String → Client M → Reply × Client M
  setup keys c =
      ensure_channel c then_call call then_call bind_all keys then_call call then_call call

  -- One pass of the loop: the exception that ended it, if any, and the delay in force then.
  unfoldable pub pass : List String → ℕ → Client M → Reply × ℕ × Client M
  pass keys delay c =
      let (r, c') = setup keys c in
      elim r [ Reply.accepted ↦ let (s, c'') = call c' in (s, 1, c'') | e ↦ (e, delay, c') ]

  -- The loop on a number of passes. `stop n` is the flag `_stopping`, as read when pass n fails:
  -- another thread may set it.
  unfoldable pub consume_loop : ℕ → (ℕ → Bool) → List String → ℕ → Client M → Run
  consume_loop zero stop keys delay c = record { sleeps = []; ending = Ending.looping }
  consume_loop (suc n) stop keys delay c =
      let (r, d, c') = pass keys delay c in
      let resumed = consume_loop n stop keys d c' in
      let retried = consume_loop n stop keys (min (d * 2) max_delay) (discard_connection c') in
      elim r [
        | Reply.accepted ↦ resumed
        | Reply.other_error ↦ record { sleeps = []; ending = Ending.crashed Reply.other_error }
        | e ↦
            if stop n
            then record { sleeps = []; ending = Ending.stopped }
            else record { sleeps = d ∷ retried.sleeps; ending = retried.ending }
      ]

  -- `consume`, which starts with a delay of one second
  unfoldable pub consume : ℕ → (ℕ → Bool) → List String → Client M → Run
  consume passes stop keys c = consume_loop passes stop keys 1 c

pub data Settled : Type 0 where
  ack nack : Settled

-- A handler returns whether it raised, and the state that it left.
abbrev pub Handler : Type 0 → Type 0 → Type 0
Handler S M = M → S → Bool × S

-- `_callback`: a message whose handler raised is dropped, any other is acknowledged.
unfoldable pub callback : {S M : Type 0} → Handler S M → M → S → Settled × S
callback on_message body s =
    let (failed, s') = on_message body s in if failed then (Settled.nack, s') else (Settled.ack, s')

-- `start_consuming` on the deliveries that arrive.
unfoldable pub deliver_all : {S M : Type 0} → Handler S M → List M → S → List Settled × S
deliver_all on_message [] s = ([], s)
deliver_all on_message (body ∷ rest) s =
    let (d, s') = callback on_message body s in
    let (ds, s'') = deliver_all on_message rest s' in (d ∷ ds, s'')
