-- ===== src/Messaging/Publish.antt =====
-- What `publish` of messaging.py hands to the broker, on every answer of it.
use hypertrace.Prelude.{ℕ, ◌+◌, ◌≤◌, String, ◌≡◌, ◌⊎◌, true, false, some, [], ◌∷◌, ◌++◌, arith}
use hypertrace.Messaging.{
  Reply, Client, Outcome, ok, raised, call, ensure_channel, open_channel, declare,
  discard_connection, attempt, publish, is_caught,
}

module _ {M : Type 0} where
  -- The calls of `basic_publish` that returned, by how the call of `publish` ended.
  abbrev pub Delivered : String → M → Client M → Outcome (Unit {0}) × Client M → Type 0
  Delivered key m c (ok _, c') = c'.sent ≡ c.sent ++ (key, m) ∷ []
  Delivered key m c (raised _, c') = c'.sent ≡ c.sent

  sent-ensure_channel : (c : Client M) → (ensure_channel c).1.sent ≡ c.sent
  unfolding ensure_channel
  sent-ensure_channel c = ground arith

  abbrev Attempted : String → M → Client M → Reply × Client M → Type 0
  Attempted key m c (Reply.accepted, c') = c'.sent ≡ c.sent ++ (key, m) ∷ []
  Attempted key m c (_, c') = c'.sent ≡ c.sent

  attempt-Attempted : (key : String) (m : M) (c : Client M) → Attempted key m c (attempt key m c)
  unfolding attempt
  attempt-Attempted key m c = ground arith

  sent-discard_connection : (c : Client M) → (discard_connection c).sent ≡ c.sent
  unfolding discard_connection
  sent-discard_connection c = ground arith

  -- In a publish that returns exactly one call of `basic_publish` returned, with its message; in one
  -- that raises none did.
  pub publish-Delivered :
      (key : String) (m : M) (c : Client M) → Delivered key m c (publish key m c)
  unfolding publish
  publish-Delivered key m c =
      let again : Client M = discard_connection (attempt key m c).1 in
      ground (
        arith,
        attempt-Attempted key m c,
        attempt-Attempted key m again,
        sent-discard_connection (attempt key m c).1,
        sent-discard_connection (attempt key m again).1,
      )

  -- Only two failed attempts, or an exception that is not caught, make `publish` raise; the second
  -- attempt starts without a connection.
  pub publish-raised :
      (key : String) (m : M) (c : Client M) (e : Reply)
      → (publish key m c).0 ≡ raised e
      → let (r, c1) = attempt key m c in
        ((r ≡ Reply.other_error) × (e ≡ Reply.other_error))
        ⊎ ((is_caught r ≡ true) × ((attempt key m (discard_connection c1)).0 ≡ e))
  unfolding publish
  publish-raised key m c e h = ground arith

  -- A connection that died idle: it reads as open, the first write to it fails, and the broker
  -- accepts what follows.
  pub record IsStale (c : Client M) : Type 0 where
    pub looks_open : c.connection ≡ some (record { is_closed = false })
    pub write_fails : is_caught (c.replies c.calls) ≡ true
    pub then_accepts : (n : ℕ) → c.calls + 1 ≤ n → c.replies n ≡ Reply.accepted

  -- On a connection that died idle, with a broker that accepts from the second call on, `publish`
  -- returns.
  pub publish_stale :
      (key : String) (m : M) (c : Client M) → IsStale c → (publish key m c).0 ≡ ok tt
  unfolding publish attempt discard_connection ensure_channel call open_channel declare
  publish_stale key m c h = grind (arith, h.then_accepts)
