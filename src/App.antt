-- ===== src/App.antt =====
-- app.go: the reasons that are registered with the error kit, and `init`, which builds the service from
-- its configuration. The platform, the key files, the database pool, the
-- parser of redis URLs and the task list are arguments.
pub mod Taxonomy
use eudi_api_management.Base.{
  ℕ, ◌*◌, String, Bool, true, false, Option, none, some, List, [], ◌∷◌, ◌==◌, if◌then◌else◌,
}
use eudi_api_management.Base.Results.{Result, ok, err, ◌>>=◌, or_fail}
use eudi_api_management.Base.Dict.{Dict}
use eudi_api_management.Errors.{Error, fault}
use eudi_api_management.Keyspace.{new_prefix}
use eudi_api_management.Wire.{Keys}
use eudi_api_management.Config.{Configuration, second}
use eudi_api_management.Webhook.Retrier.{Retrier}

-- pkerrors.ReasonSpec under its name, and whether AllowBuiltinOverride is given
pub record Reason : Type 0 where
  pub name : String
  pub status : ℕ
  pub title : String
  pub overrides_builtin : Bool

abbrev reason : String → ℕ → String → Reason
reason name status title = record {
  name = name;
  status = status;
  title = title;
  overrides_builtin = false;
}

-- the calls of RegisterReason in their order
abbrev pub reasons : List Reason
reasons =
    reason "notRegistered" 403 "Client not registered"
    ∷ reason "scopeExceeded" 403 "Requested attributes exceed registered intended use"
    ∷ reason "originNotRegistered" 403 "URI origin not pre-registered for client"
    ∷ reason "intendedUseRevoked" 422 "Intended use revoked"
    ∷ reason "registrarIdentityRequired" 422 "Client registrar identity required"
    ∷ reason "deliveryFailed" 502 "Webhook delivery failed"
    ∷ reason "notCancellable" 409 "Session not cancellable"
    ∷ reason "intendedUseRequired" 422 "Intended use required"
    ∷ record { name = "notFound"; status = 404; title = "Not found"; overrides_builtin = true }
    ∷ []

abbrev key_handoff_enc : String
key_handoff_enc = "handoff-enc"

abbrev key_webhook_signing : String
key_webhook_signing = "webhook-signing"

-- sweeperInterval
abbrev sweeper_interval : ℕ
sweeper_interval = 30 * second

-- sweeperBatchLimit
abbrev sweeper_batch_limit : ℕ
sweeper_batch_limit = 200

-- redis.Options: the password, and the rest of a URL
pub record RedisOptions : Type 0 where
  pub endpoint : String
  pub password : String

-- What init calls of the outside; an error is `false` or `none`.
pub record Platform : Type 0 where
  pub setup : List Reason → Bool
  pub load_keys : Dict String → Option Keys
  pub open_pool : String → Bool
  pub parse_redis_url : String → Option RedisOptions
  pub add_task : String → Bool

-- NewDeliverer with the http.Client that it is given
pub record Deliverer : Type 0 where
  pub client_timeout : ℕ
  pub keys : Keys
  pub timeout : ℕ

-- NewRetrier and WithKeyPrefix
pub record Retries : Type 0 where
  pub valkey : RedisOptions
  pub retrier : Retrier
  pub prefix : String

-- the arguments of NewConsumer
pub record Consumer : Type 0 where
  pub name : String
  pub valkey : RedisOptions
  pub prefix : String
  pub database : String
  pub deliverer : Deliverer
  pub retries : Retries
  pub poll : ℕ

-- the arguments of NewSweeper
pub record Sweeper : Type 0 where
  pub name : String
  pub database : String
  pub deliverer : Deliverer
  pub limit : ℕ
  pub interval : ℕ

-- App; the pool and the two stores over it are given by the DSN, the engine's client by its arguments
pub record App : Type 0 where
  pub config : Configuration
  pub keys : Keys
  pub database : String
  pub engine_url : String
  pub engine_token : String
  pub valkey : RedisOptions
  pub prefix : String
  pub consumer : Consumer
  pub sweeper : Sweeper

-- a step that only reports an error
abbrev step : Bool → String → Result Error (Unit {0})
step true what = ok tt
step false what = err (fault what)

-- a mounted secret wins over one embedded in the URL
unfoldable with_password : String → RedisOptions → RedisOptions
with_password password options =
    if password == "" then options else record options { password = password }

-- NewRetrier
abbrev new_retrier : ℕ → ℕ → Retrier
new_retrier base max_attempts = record { base = base; max_attempts = max_attempts }

abbrev deliverer_of : Configuration → Keys → Deliverer
deliverer_of config keys = record {
  client_timeout = config.webhook_timeout;
  keys = keys;
  timeout = config.webhook_timeout;
}

abbrev consumer_of : Configuration → Keys → RedisOptions → String → Consumer
consumer_of config keys valkey prefix = record {
  name = "webhook-consumer";
  valkey = valkey;
  prefix = prefix;
  database = config.postgres_dsn;
  deliverer = deliverer_of config keys;
  retries = record {
    valkey = valkey;
    retrier = new_retrier config.retry_base_delay config.retry_max_attempts;
    prefix = prefix;
  };
  poll = config.consumer_poll_every;
}

abbrev sweeper_of : Configuration → Keys → Sweeper
sweeper_of config keys = record {
  name = "webhook-sweeper";
  database = config.postgres_dsn;
  deliverer = deliverer_of config keys;
  limit = sweeper_batch_limit;
  interval = sweeper_interval;
}

-- the service that init builds from what has loaded, with its Valkey options and its key prefix
abbrev pub app_of : Configuration → Keys → RedisOptions → String → App
app_of config keys valkey prefix = record {
  config = config;
  keys = keys;
  database = config.postgres_dsn;
  engine_url = config.verifier_internal_url;
  engine_token = config.internal_api_token;
  valkey = valkey;
  prefix = prefix;
  consumer = consumer_of config keys valkey prefix;
  sweeper = sweeper_of config keys;
}

-- init
unfoldable pub init : Platform → Configuration → Result Error App
unfolding with_password new_prefix
init platform config = do
  configured ← step (platform.setup reasons) "platform setup"
  keys ←
      or_fail
        (platform.load_keys (
          (key_handoff_enc, config.handoff_enc_key_file)
          ∷ (key_webhook_signing, config.webhook_signing_key_file)
          ∷ []))
        (fault "key files")
  pool ← step (platform.open_pool config.postgres_dsn) "database pool"
  options ← or_fail (platform.parse_redis_url config.valkey_url) (fault "redis URL")
  consuming ← step (platform.add_task "webhook-consumer") "webhook consumer"
  sweeping ← step (platform.add_task "webhook-sweeper") "webhook sweeper"
  ok (
      app_of config keys (with_password config.valkey_password options)
        (new_prefix config.valkey_key_prefix))

-- New, with the configuration of server.New, where `none` is its error
unfoldable pub new_app : Platform → Option Configuration → Result Error App
unfolding init
new_app platform none = err (fault "server")
new_app platform (some config) = init platform config
