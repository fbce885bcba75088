-- ===== src/Settings.antt =====
-- shared/hypertrace_common/hypertrace_common/config.py and db.py: the connection settings, the URLs
-- made of them, and the engine. What pydantic reads of the environment is an argument: the settings
-- themselves; SQLAlchemy's `create_engine` is the argument `create`.
use hypertrace.Prelude.{ℕ, String, ◌<>◌, Bool, true, false, Option, none, some, show}

pub record RabbitMqSettings : Type 0 where
  pub host : String
  pub port : ℕ
  pub user : String
  pub password : String
  pub vhost : String

abbrev pub rabbitmq_defaults : RabbitMqSettings
rabbitmq_defaults = record {
  host = "rabbitmq.hypertrace.svc.cluster.local";
  port = 5672;
  user = "hypertrace";
  password = "hypertrace-dev";
  vhost = "/";
}

-- The part of a URL from the user to the port.
abbrev location : String → String → String → ℕ → String
location user password host port =
    user <> (":" <> (password <> ("@" <> (host <> (":" <> show port)))))

-- `RabbitMQSettings.url`
unfoldable pub amqp_url : RabbitMqSettings → String
amqp_url s = "amqp://" <> (location s.user s.password s.host s.port <> s.vhost)

pub record DatabaseSettings : Type 0 where
  pub host : String
  pub port : ℕ
  pub user : String
  pub password : String
  pub name : String

abbrev pub database_defaults : DatabaseSettings
database_defaults = record {
  host = "timescaledb.hypertrace.svc.cluster.local";
  port = 5432;
  user = "hypertrace";
  password = "hypertrace-dev";
  name = "hypertrace";
}

-- `DatabaseSettings.url`
unfoldable pub database_url : DatabaseSettings → String
database_url s =
    "postgresql+psycopg2://" <> (location s.user s.password s.host s.port <> ("/" <> s.name))

-- `make_engine`; `environment` is what `DatabaseSettings()` answers.
unfoldable pub make_engine :
    {E : Type 0} → (String → Bool → E) → DatabaseSettings → Option DatabaseSettings → E
make_engine create environment none = create (database_url environment) true
make_engine create environment (some s) = create (database_url s) true

-- `make_session_factory`; SQLAlchemy's `sessionmaker` is the argument `factory`, with the engine and
-- `expire_on_commit`.
unfoldable pub make_session_factory :
    {E F : Type 0}
    → (String → Bool → E)
    → (E → Bool → F)
    → DatabaseSettings
    → Option DatabaseSettings
    → F
make_session_factory create factory environment settings =
    factory (make_engine create environment settings) false
