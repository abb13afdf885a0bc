-- ===== src/Examples/Settings.antt =====
-- The configuration, the start of the service and the prefix of its keys.
use eudi_api_management.Base.{
  ◌*◌, String, ◌≡◌, ◌≢◌, refl, ◌⊎◌, true, Option, none, some, List, ◌==◌, if◌then◌else◌, All,
}
use eudi_api_management.Base.Results.{ok}
use eudi_api_management.Text.{append, trim_right}
use eudi_api_management.Keyspace.{is_colon, new_prefix}
use eudi_api_management.Keyspace.{key}
use eudi_api_management.Keyspace.Normal.{new_prefix-normal}
use eudi_api_management.Config.{Configuration, Setting, Value, second, minute, bind}
use eudi_api_management.Config.Precedence
use eudi_api_management.Config.Sources.{Environment, env_name, default_for}
use eudi_api_management.Config.Precedence.{chosen, Row, rows, bind-precedence}
use eudi_api_management.App.{Platform, App, app_of, new_app}
use eudi_api_management.Webhook.Retrier.Keys.{attempts_key, zset_key, keys-apart}
use eudi_api_management.Examples.World.{keys}

abbrev pub config : Configuration
config = record {
  postgres_dsn = "postgres://db";
  valkey_url = "redis://cache";
  valkey_password = "hush";
  valkey_key_prefix = "eudi";
  verifier_internal_url = "https://engine.example";
  internal_api_token = "token";
  handoff_enc_key_file = "/keys/enc";
  webhook_signing_key_file = "/keys/sign";
  session_default_ttl = 5 * minute;
  webhook_timeout = 10 * second;
  retry_base_delay = 30 * second;
  retry_max_attempts = 8;
  consumer_poll_every = second;
  session_rate_limit_per_key = 50;
  session_rate_limit_per_ip = 100;
  session_rate_window = minute;
}

abbrev platform : Platform
platform = record {
  setup = λ reasons. true;
  load_keys = λ files. some keys;
  open_pool = λ dsn. true;
  parse_redis_url = λ raw. some (record { endpoint = raw; password = "" });
  add_task = λ name. true;
}

abbrev running_app : App
running_app = app_of config keys (record { endpoint = "redis://cache"; password = "hush" }) "eudi:"

-- the mounted password wins, and the consumer and its retries have one prefix
starts_up : new_app platform (some config) ≡ ok running_app
unfolding new_app new_prefix trim_right eudi_api_management.Text.trim_space
starts_up = refl

abbrev resolve : List Setting → Environment → String → Option Value
resolve calls env name = elim (env_name name calls) [
  | none ↦ default_for name calls
  | some bound ↦ chosen (env bound) (default_for name calls)
]

viper : Precedence.Documented resolve
viper = record { precedence = λ calls env name bound e. rw (resolve, e) refl }

abbrev secrets : String → Option String
secrets name = if name == "VALKEY_PASSWORD" then some "hush" else none

abbrev environment : Environment
environment name = if name == "WEBHOOK_TIMEOUT" then some "20s" else none

bind-precedence_example :
    All
      (λ (row : Row).
        resolve (bind secrets) environment row.key
        ≡ chosen (environment row.name) (row.fallback secrets))
      rows
bind-precedence_example = bind-precedence secrets resolve viper environment

new_prefix-normal_example :
    (new_prefix (new_prefix " eudi::") ≡ new_prefix " eudi::")
    × ((new_prefix " eudi::" ≡ "")
        ⊎ ((q : String) × (new_prefix " eudi::" ≡ append q ":")
            × (q ≢ "")
            × (trim_right is_colon q ≡ q)))
    × ◌≡◌ {A = String} "queue" "queue"
new_prefix-normal_example = new_prefix-normal " eudi::" "queue" "queue" refl

keys-apart_example :
    ◌≡◌ {A = String} "s1" "s1"
    × (zset_key (new_prefix "eudi") ≢ attempts_key (new_prefix "eudi") "s1")
    × (key (new_prefix "eudi") "vc:handoff:queue" ≢ attempts_key (new_prefix "eudi") "s1")
    × (key (new_prefix "eudi") "vc:handoff:queue" ≢ zset_key (new_prefix "eudi"))
keys-apart_example = keys-apart "eudi" "s1" "s1" "vc:handoff:queue" "handoff:queue" refl refl
