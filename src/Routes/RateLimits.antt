-- ===== src/Routes/RateLimits.antt =====
-- routes/ratelimit.go: the two limiters of session creation. The counting is azugo's and an argument.
use eudi_api_management.Base.{ℕ, String, Bool, true, Option, none, some}
use eudi_api_management.Text.{append}
use eudi_api_management.Config.{Configuration}

-- config.RateLimit
pub record RateLimit : Type 0 where
  pub enabled : Bool
  pub strategy : String
  pub limit : ℕ
  pub window : ℕ

-- A limiter as it is handed to middleware.RateLimit, without its key generator.
pub record Limiter : Type 0 where
  pub config : RateLimit
  pub name : String

-- sessionKeyRateLimitConfig
unfoldable session_key_config : Configuration → RateLimit
session_key_config cfg = record {
  enabled = true;
  strategy = "fixed-window";
  limit = cfg.session_rate_limit_per_key;
  window = cfg.session_rate_window;
}

-- sessionIPRateLimitConfig
unfoldable session_ip_config : Configuration → RateLimit
session_ip_config cfg = record {
  enabled = true;
  strategy = "fixed-window";
  limit = cfg.session_rate_limit_per_ip;
  window = cfg.session_rate_window;
}

-- sessionKeyRateLimit
unfoldable pub session_key_limiter : Configuration → Limiter
unfolding session_key_config
session_key_limiter cfg = record { config = session_key_config cfg; name = "session-key" }

-- sessionIPRateLimit
unfoldable pub session_ip_limiter : Configuration → Limiter
unfolding session_ip_config
session_ip_limiter cfg = record { config = session_ip_config cfg; name = "session-ip" }

-- the user value "client_id" as a text, which is empty where no middleware has set it
abbrev pub client_text : Option String → String
client_text none = ""
client_text (some client_id) = client_id

-- the key generator of sessionKeyRateLimit
unfoldable pub client_key : Option String → String
client_key client = append "key:" (client_text client)

-- the key generator of sessionIPRateLimit
unfoldable pub ip_key : String → String
ip_key ip = append "ip:" ip

-- middleware.RateLimit: whether a request under a key passes at an instant, and the counters `L` after
-- it
abbrev pub Counting : Type 0 → Type 0
Counting L = Limiter → String → ℕ → L → Bool × L
