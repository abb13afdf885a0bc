-- ===== src/Config.antt =====
-- config.go: the configuration, its defaults, its bindings to the environment and its validation. Of
-- viper the calls that are made of it are modelled; how it resolves a key is an argument, and so are the
-- secret store and what a validation tag means for a value. A duration counts nanoseconds.
pub mod Sources
pub mod Precedence
pub mod Bounds
use eudi_api_management.Base.{
  ℕ, ◌*◌, ◌^◌, String, Bool, true, false, ◌&&◌, Option, none, some, List, [], ◌∷◌, ◌++◌, ◌==◌,
  if◌then◌else◌, all,
}

abbrev pub second : ℕ
second = 10 ^ 9

abbrev pub minute : ℕ
minute = 60 * second

-- The fields of the service's own, without the embedded base configuration.
pub record Configuration : Type 0 where
  pub postgres_dsn : String
  pub valkey_url : String
  pub valkey_password : String
  pub valkey_key_prefix : String
  pub verifier_internal_url : String
  pub internal_api_token : String
  pub handoff_enc_key_file : String
  pub webhook_signing_key_file : String
  pub session_default_ttl : ℕ
  pub webhook_timeout : ℕ
  pub retry_base_delay : ℕ
  pub retry_max_attempts : ℕ
  pub consumer_poll_every : ℕ
  pub session_rate_limit_per_key : ℕ
  pub session_rate_limit_per_ip : ℕ
  pub session_rate_window : ℕ

pub data Value : Type 0 where
  text : String → Value
  number : ℕ → Value

-- A call of viper.
pub data Setting : Type 0 where
  sets_default : String → Value → Setting
  binds_env : String → String → Setting

-- corecfg.LoadRemoteSecret; its error is `none`
abbrev pub Secrets : Type 0
Secrets = String → Option String

abbrev default_of : String → Option String → List Setting
default_of key none = []
default_of key (some secret) = if secret == "" then [] else sets_default key (text secret) ∷ []

-- loadSecret
unfoldable pub load_secret : Secrets → String → String → List Setting
load_secret secrets key name = default_of key (secrets name)

abbrev defaults : List Setting
defaults =
    sets_default "session_default_ttl" (number (5 * minute))
    ∷ sets_default "webhook_timeout" (number (10 * second))
    ∷ sets_default "webhook_retry_base_delay" (number (30 * second))
    ∷ sets_default "webhook_retry_max_attempts" (number 8)
    ∷ sets_default "handoff_poll_interval" (number second)
    ∷ sets_default "session_rate_limit_per_key" (number 50)
    ∷ sets_default "session_rate_limit_per_ip" (number 100)
    ∷ sets_default "session_rate_window" (number minute)
    ∷ []

abbrev bindings : List Setting
bindings =
    binds_env "postgres_dsn" "POSTGRES_DSN"
    ∷ binds_env "valkey_url" "VALKEY_URL"
    ∷ binds_env "valkey_password" "VALKEY_PASSWORD"
    ∷ binds_env "valkey_key_prefix" "VALKEY_KEY_PREFIX"
    ∷ binds_env "verifier_internal_url" "VERIFIER_INTERNAL_URL"
    ∷ binds_env "internal_api_token" "INTERNAL_API_TOKEN"
    ∷ binds_env "handoff_enc_key_file" "HANDOFF_ENC_KEY_FILE"
    ∷ binds_env "webhook_signing_key_file" "WEBHOOK_SIGNING_KEY_FILE"
    ∷ binds_env "session_default_ttl" "SESSION_DEFAULT_TTL"
    ∷ binds_env "webhook_timeout" "WEBHOOK_TIMEOUT"
    ∷ binds_env "webhook_retry_base_delay" "WEBHOOK_RETRY_BASE_DELAY"
    ∷ binds_env "webhook_retry_max_attempts" "WEBHOOK_RETRY_MAX_ATTEMPTS"
    ∷ binds_env "handoff_poll_interval" "HANDOFF_POLL_INTERVAL"
    ∷ binds_env "session_rate_limit_per_key" "SESSION_RATE_LIMIT_PER_KEY"
    ∷ binds_env "session_rate_limit_per_ip" "SESSION_RATE_LIMIT_PER_IP"
    ∷ binds_env "session_rate_window" "SESSION_RATE_WINDOW"
    ∷ []

-- Bind, after the bindings of the base configuration: the calls of viper in their order
unfoldable pub bind : Secrets → List Setting
unfolding load_secret
bind secrets =
    defaults
    ++ (load_secret secrets "postgres_dsn" "POSTGRES_DSN"
        ++ (load_secret secrets "internal_api_token" "INTERNAL_API_TOKEN"
            ++ (load_secret secrets "valkey_password" "VALKEY_PASSWORD" ++ bindings)))

-- The tags of the fields.
pub data Tag : Type 0 where
  required positive url : Tag

pub record Field : Type 0 where
  pub value : Value
  pub tags : List Tag

abbrev required_text : String → Field
required_text s = record { value = text s; tags = required ∷ [] }

abbrev required_positive : ℕ → Field
required_positive n = record { value = number n; tags = required ∷ positive ∷ [] }

-- the fields that have a `validate` tag
abbrev fields : Configuration → List Field
fields c =
    required_text c.postgres_dsn
    ∷ required_text c.valkey_url
    ∷ record { value = text c.verifier_internal_url; tags = required ∷ url ∷ [] }
    ∷ required_text c.internal_api_token
    ∷ required_text c.handoff_enc_key_file
    ∷ required_text c.webhook_signing_key_file
    ∷ required_positive c.session_default_ttl
    ∷ required_positive c.webhook_timeout
    ∷ required_positive c.retry_base_delay
    ∷ required_positive c.retry_max_attempts
    ∷ required_positive c.consumer_poll_every
    ∷ required_positive c.session_rate_limit_per_key
    ∷ required_positive c.session_rate_limit_per_ip
    ∷ required_positive c.session_rate_window
    ∷ []

-- Validate, by the validation of the base configuration and of one tag of a value
unfoldable pub validate : Bool → (Tag → Value → Bool) → Configuration → Bool
validate base_valid holds c =
    base_valid && all (λ f. all (λ tag. holds tag f.value) f.tags) (fields c)
