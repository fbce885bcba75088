-- ===== src/Effects/Sending.antt =====
-- How a publish ends for a handler: the message is out, or the exception leaves it unsent.
use hypertrace.Prelude.{String, ◌≡◌, [], ◌∷◌, ◌++◌}
use hypertrace.Messaging
use hypertrace.Messaging.{Client, Outcome}
use hypertrace.Messaging.Publish.{Delivered, publish-Delivered}
use hypertrace.Effects.{World, Result, ok, err, publish_error, publish}

module _ {M S : Type 0} where
  pub data Sent (key : String) (m : M) (w : World M S)
      : Result (Unit {0}) × World M S → Type 0 where
    delivered :
        (c : Client M)
        → c.sent ≡ w.mq.sent ++ (key, m) ∷ []
        → Sent key m w (ok tt, record w { mq = c })
    lost :
        (c : Client M) → c.sent ≡ w.mq.sent → Sent key m w (err publish_error, record w { mq = c })

  reported : Outcome (Unit {0}) × Client M → World M S → Result (Unit {0}) × World M S
  reported p w =
      let w' = record w { mq = p.1 } in
      elim p.0 [ Messaging.ok _ ↦ (ok tt, w') | Messaging.raised _ ↦ (err publish_error, w') ]

  reported-Sent :
      (key : String) (m : M) (w : World M S) (p : Outcome (Unit {0}) × Client M)
      → Delivered key m w.mq p
      → Sent key m w (reported p w)
  unfolding reported
  reported-Sent key m w (Messaging.ok _, c) d = delivered c d
  reported-Sent key m w (Messaging.raised _, c) d = lost c d

  pub publish-Sent : (key : String) (m : M) (w : World M S) → Sent key m w (publish key m w)
  unfolding reported
  publish-Sent key m w =
      reported-Sent key m w (Messaging.publish key m w.mq) (publish-Delivered key m w.mq)
