-- ===== src/Effects.antt =====
-- What a handler of a service does besides computing: it reads the clock, makes identifiers,
-- publishes, reads and writes its own state, and may raise. What was written before a raise stays
-- written, since every statement is its own transaction.
pub mod Sending
use hypertrace.Prelude.{ℕ, ◌+◌, ◌*◌, String, ◌≡◌, refl, ◌⊎◌, inl, inr, Option, none, some}
use hypertrace.Messaging
use hypertrace.Messaging.{Client}

-- The exceptions. `http_error` carries the status code, `api_error` that of the Kubernetes API.
pub data Failure : Type 0 where
  key_error value_error type_error index_error publish_error : Failure
  http_error api_error : ℕ → Failure

pub data Result (A : Type 0) : Type 0 where
  ok : A → Result A
  err : Failure → Result A

pub Result-cases :
    {A : Type 0} (r : Result A) → ((a : A) × (r ≡ ok a)) ⊎ ((e : Failure) × (r ≡ err e))
Result-cases (ok a) = inl (a, refl)
Result-cases (err e) = inr (e, refl)

-- The n-th reading of the clock, in microseconds, is `clock n`; the n-th `uuid4()` is `uuid n`.
pub record World (M S : Type 0) : Type 0 where
  pub clock : ℕ → ℕ
  pub reads : ℕ
  pub uuid : ℕ → String
  pub made : ℕ
  pub mq : Client M
  pub own : S

abbrev pub Exec : Type 0 → Type 0 → Type 0 → Type 0
Exec M S A = World M S → Result A × World M S

abbrev pub minutes : ℕ → ℕ
minutes n = n * 60_000_000

module _ {M S A : Type 0} where
  abbrev pub pure : A → Exec M S A
  pure a w = (ok a, w)

  abbrev pub raise : Failure → Exec M S A
  raise e w = (err e, w)

  abbrev pub gets : (S → A) → Exec M S A
  gets f w = (ok (f w.own), w)

  abbrev pub or_raise : Option A → Failure → Exec M S A
  or_raise (some a) e w = (ok a, w)
  or_raise none e w = (err e, w)

module _ {M S A B : Type 0} where
  infixl 5 ◌>>=◌ ◌>>◌
  abbrev pub ◌>>=◌ : Exec M S A → (A → Exec M S B) → Exec M S B
  ◌>>=◌ m f w = let (r, w') = m w in elim r [ ok a ↦ f a w' | err e ↦ (err e, w') ]

  abbrev pub ◌>>◌ : Exec M S A → Exec M S B → Exec M S B
  m >> k = m >>= λ _. k

module _ {M S : Type 0} where
  abbrev pub modify : (S → S) → Exec M S (Unit {0})
  modify f w = (ok tt, record w { own = f w.own })

  -- `datetime.now(timezone.utc)`
  abbrev pub now : Exec M S ℕ
  now w = (ok (w.clock w.reads), record w { reads = w.reads + 1 })

  -- `str(uuid.uuid4())`
  abbrev pub uuid4 : Exec M S String
  uuid4 w = (ok (w.uuid w.made), record w { made = w.made + 1 })

  -- `mq.publish(routing_key, payload)`
  abbrev pub publish : String → M → Exec M S (Unit {0})
  publish key payload w =
      let (r, c) = Messaging.publish key payload w.mq in
      let w' = record w { mq = c } in
      elim r [ Messaging.ok _ ↦ (ok tt, w') | Messaging.raised _ ↦ (err publish_error, w') ]
