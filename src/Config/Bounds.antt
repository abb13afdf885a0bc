-- ===== src/Config/Bounds.antt =====
-- What a configuration that passes the validation is known to have.
use eudi_api_management.Base.{ℕ, ◌<◌, String, ◌≡◌, ◌≢◌, true, Bool, arith, List, [], ◌∷◌, all, All}
use eudi_api_management.Config.{
  Configuration, Value, text, number, Tag, required, positive, Field, fields, validate,
}

-- The documented meaning of two tags: a required text is not empty, and `gt=0` is what it says.
pub record Documented (holds : Tag → Value → Bool) : Type 0 where
  pub required_text : (s : String) → holds required (text s) ≡ true → s ≢ ""
  pub positive_number : (n : ℕ) → holds positive (number n) ≡ true → 0 < n

-- The settings that other parts rely on.
pub record IsUsable (c : Configuration) : Type 0 where
  pub dsn : c.postgres_dsn ≢ ""
  pub valkey : c.valkey_url ≢ ""
  pub engine : c.verifier_internal_url ≢ ""
  pub token : c.internal_api_token ≢ ""
  pub decryption_key : c.handoff_enc_key_file ≢ ""
  pub signing_key : c.webhook_signing_key_file ≢ ""
  pub ttl : 0 < c.session_default_ttl
  pub timeout : 0 < c.webhook_timeout
  pub base_delay : 0 < c.retry_base_delay
  pub max_attempts : 0 < c.retry_max_attempts
  pub poll : 0 < c.consumer_poll_every
  pub per_key : 0 < c.session_rate_limit_per_key
  pub per_ip : 0 < c.session_rate_limit_per_ip
  pub window : 0 < c.session_rate_window

All-tags :
    (holds : Tag → Value → Bool) (v : Value) (tags : List Tag)
    → all (λ tag. holds tag v) tags ≡ true
    → All (λ tag. holds tag v ≡ true) tags
All-tags holds v [] h = tt
All-tags holds v (tag ∷ tags) h = (ground arith, All-tags holds v tags (ground arith))

All-fields :
    (holds : Tag → Value → Bool) (fs : List Field)
    → all (λ f. all (λ tag. holds tag f.value) f.tags) fs ≡ true
    → All (λ f. All (λ tag. holds tag f.value ≡ true) f.tags) fs
All-fields holds [] h = tt
All-fields holds (f ∷ fs) h =
    (All-tags holds f.value f.tags (ground arith), All-fields holds fs (ground arith))

-- A configuration that is valid has a value for every text that is required, and every duration and
-- count of it is positive.
validate-IsUsable :
    (base_valid : Bool) (holds : Tag → Value → Bool) (c : Configuration)
    → Documented holds
    → validate base_valid holds c ≡ true
    → IsUsable c
unfolding validate
validate-IsUsable base_valid holds c d h =
    let checks = All-fields holds (fields c) (ground arith) in
    record {
      dsn = d.required_text _ checks.0.0;
      valkey = d.required_text _ checks.1.0.0;
      engine = d.required_text _ checks.1.1.0.0;
      token = d.required_text _ checks.1.1.1.0.0;
      decryption_key = d.required_text _ checks.1.1.1.1.0.0;
      signing_key = d.required_text _ checks.1.1.1.1.1.0.0;
      ttl = d.positive_number _ checks.1.1.1.1.1.1.0.1.0;
      timeout = d.positive_number _ checks.1.1.1.1.1.1.1.0.1.0;
      base_delay = d.positive_number _ checks.1.1.1.1.1.1.1.1.0.1.0;
      max_attempts = d.positive_number _ checks.1.1.1.1.1.1.1.1.1.0.1.0;
      poll = d.positive_number _ checks.1.1.1.1.1.1.1.1.1.1.0.1.0;
      per_key = d.positive_number _ checks.1.1.1.1.1.1.1.1.1.1.1.0.1.0;
      per_ip = d.positive_number _ checks.1.1.1.1.1.1.1.1.1.1.1.1.0.1.0;
      window = d.positive_number _ checks.1.1.1.1.1.1.1.1.1.1.1.1.1.0.1.0;
    }
