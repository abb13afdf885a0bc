-- ===== src/Config/Precedence.antt =====
-- Where the value of a key comes from: the environment, a file of the secret store, or the default.
use eudi_api_management.Base.{
  ◌*◌, String, ◌≡◌, refl, ap, ◌∙◌, Option, none, some, List, [], ◌∷◌, ◌==◌, if◌then◌else◌, All,
  arith,
}
use eudi_api_management.Config.{
  Value, text, number, Setting, Secrets, second, defaults, bindings, bind,
}
use eudi_api_management.Config.Sources.{
  env_name, later, default_for, Environment, secret_of, env_name-bind, loaded_default,
  default_for-bind,
}

-- a variable that is set and not empty, or else the default
abbrev pub chosen : Option String → Option Value → Option Value
chosen none default = default
chosen (some v) default = if v == "" then default else some (text v)

-- viper's documented precedence: a bound variable wins over the default, and an empty one counts as
-- unset.
pub record Documented (resolve : List Setting → Environment → String → Option Value) : Type 0 where
  pub precedence :
      (calls : List Setting) (env : Environment) (key name : String)
      → env_name key calls ≡ some name
      → resolve calls env key ≡ chosen (env name) (default_for key calls)

pub record Row : Type 0 where
  pub key : String
  pub name : String
  -- the value where the environment has none
  pub fallback : Secrets → Option Value

abbrev secret_row : String → String → Row
secret_row key name = record {
  key = key;
  name = name;
  fallback = λ secrets. secret_of (secrets name);
}

abbrev plain_row : String → String → Option Value → Row
plain_row key name v = record { key = key; name = name; fallback = λ secrets. v }

-- The keys of the service with their variables and the values that they fall back to.
abbrev pub rows : List Row
rows =
    secret_row "postgres_dsn" "POSTGRES_DSN"
    ∷ secret_row "internal_api_token" "INTERNAL_API_TOKEN"
    ∷ secret_row "valkey_password" "VALKEY_PASSWORD"
    ∷ plain_row "valkey_url" "VALKEY_URL" none
    ∷ plain_row "valkey_key_prefix" "VALKEY_KEY_PREFIX" none
    ∷ plain_row "verifier_internal_url" "VERIFIER_INTERNAL_URL" none
    ∷ plain_row "handoff_enc_key_file" "HANDOFF_ENC_KEY_FILE" none
    ∷ plain_row "webhook_signing_key_file" "WEBHOOK_SIGNING_KEY_FILE" none
    ∷ plain_row "session_default_ttl" "SESSION_DEFAULT_TTL" (some (number (300 * second)))
    ∷ plain_row "webhook_timeout" "WEBHOOK_TIMEOUT" (some (number (10 * second)))
    ∷ plain_row "webhook_retry_base_delay" "WEBHOOK_RETRY_BASE_DELAY" (some (number (30 * second)))
    ∷ plain_row "webhook_retry_max_attempts" "WEBHOOK_RETRY_MAX_ATTEMPTS" (some (number 8))
    ∷ plain_row "handoff_poll_interval" "HANDOFF_POLL_INTERVAL" (some (number second))
    ∷ plain_row "session_rate_limit_per_key" "SESSION_RATE_LIMIT_PER_KEY" (some (number 50))
    ∷ plain_row "session_rate_limit_per_ip" "SESSION_RATE_LIMIT_PER_IP" (some (number 100))
    ∷ plain_row "session_rate_window" "SESSION_RATE_WINDOW" (some (number (60 * second)))
    ∷ []

module _ (secrets : Secrets) (resolve : List Setting → Environment → String → Option Value)
    (documented : Documented resolve) (env : Environment) where
  -- Where the value of one key comes from.
  abbrev Precedes : Row → Type 0
  Precedes row = resolve (bind secrets) env row.key ≡ chosen (env row.name) (row.fallback secrets)

  precedes :
      (row : Row)
      → env_name row.key bindings ≡ some row.name
      → later (loaded_default secrets row.key) (default_for row.key defaults) ≡ row.fallback secrets
      → Precedes row
  precedes row bound default =
      documented.precedence (bind secrets) env row.key row.name
        (env_name-bind secrets row.key ∙ bound)
      ∙ ap (chosen (env row.name)) (default_for-bind secrets row.key ∙ default)

  -- For each of the sixteen keys of the service: its own environment variable wins where it is set
  -- and not empty. Otherwise the three secrets come from the secret store, if that has
  -- one that is not empty, and the eight settings with a default have it.
  pub bind-precedence : All Precedes rows
  bind-precedence = assumption (
    precedes (secret_row "postgres_dsn" "POSTGRES_DSN") refl (ground arith),
    precedes (secret_row "internal_api_token" "INTERNAL_API_TOKEN") refl (ground arith),
    precedes (secret_row "valkey_password" "VALKEY_PASSWORD") refl (ground arith),
    precedes (plain_row "valkey_url" "VALKEY_URL" none) refl refl,
    precedes (plain_row "valkey_key_prefix" "VALKEY_KEY_PREFIX" none) refl refl,
    precedes (plain_row "verifier_internal_url" "VERIFIER_INTERNAL_URL" none) refl refl,
    precedes (plain_row "handoff_enc_key_file" "HANDOFF_ENC_KEY_FILE" none) refl refl,
    precedes (plain_row "webhook_signing_key_file" "WEBHOOK_SIGNING_KEY_FILE" none) refl refl,
    precedes (plain_row "session_default_ttl" "SESSION_DEFAULT_TTL" (some (number (300 * second))))
        refl refl,
    precedes (plain_row "webhook_timeout" "WEBHOOK_TIMEOUT" (some (number (10 * second)))) refl
        refl,
    precedes
        (plain_row "webhook_retry_base_delay" "WEBHOOK_RETRY_BASE_DELAY"
          (some (number (30 * second))))
        refl refl,
    precedes (plain_row "webhook_retry_max_attempts" "WEBHOOK_RETRY_MAX_ATTEMPTS" (some (number 8)))
        refl refl,
    precedes (plain_row "handoff_poll_interval" "HANDOFF_POLL_INTERVAL" (some (number second))) refl
        refl,
    precedes
        (plain_row "session_rate_limit_per_key" "SESSION_RATE_LIMIT_PER_KEY" (some (number 50)))
        refl refl,
    precedes (plain_row "session_rate_limit_per_ip" "SESSION_RATE_LIMIT_PER_IP" (some (number 100)))
        refl refl,
    precedes (plain_row "session_rate_window" "SESSION_RATE_WINDOW" (some (number (60 * second))))
        refl refl,
    tt,
  )
