-- ===== src/Adapters/Security.antt =====
-- services/security-signal-adapter/app/main.py: a signal is stamped and put on the bus.
use hypertrace.Prelude.{String}
use hypertrace.Messaging.{routing_key_security}
use hypertrace.Effects.{Exec, pure, now, publish, ◌>>=◌, ◌>>◌}
use hypertrace.Schemas.{SecuritySignal}

-- `SignalIn`, with its defaults filled in.
pub record SignalIn : Type 0 where
  pub service : String
  pub rule : String
  pub severity : String

-- What the endpoint answers.
pub record Emitted : Type 0 where
  pub status : String
  pub service : String
  pub rule : String

unfoldable pub emit_signal : {S : Type 0} → SignalIn → Exec SecuritySignal S Emitted
emit_signal s = do
  at ← now
  publish routing_key_security
      (record { timestamp = at; service = s.service; rule = s.rule; severity = s.severity })
  pure (record { status = "emitted"; service = s.service; rule = s.rule })
