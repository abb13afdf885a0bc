-- ===== src/Webhook/Retrier/Keys.antt =====
-- internal/webhook/retry.go: the keys of the retry state, under the configured prefix, next to those that
-- the producer and the poll use. The formats of the latter are
-- handoffwire's and start with "vc:".
use eudi_api_management.Base.{ℕ, String, ◌≡◌, ◌≢◌, sym, ap, ◌∙◌, arith}
use eudi_api_management.Text.{append}
use eudi_api_management.Keyspace.{new_prefix, key}
use eudi_api_management.Keyspace.Normal.{key-inj}
use Prim.Native.Char.{code}

-- retryZSetKey
abbrev retry_zset_key : String
retry_zset_key = "mgmt:webhook:retry"

-- fmt.Sprintf(attemptsKeyFmt, id)
abbrev attempts_key_text : String → String
attempts_key_text id = append "mgmt:webhook:attempts:" id

-- attemptsKey, under the prefix that WithKeyPrefix has set
unfoldable pub attempts_key : String → String → String
attempts_key prefix id = key prefix (attempts_key_text id)

-- zsetKey
unfoldable pub zset_key : String → String
zset_key prefix = key prefix retry_zset_key

abbrev first : String → ℕ
first String.[] = 0
first (String.◌∷◌ c s) = code c

vc_not_mgmt : (s t : String) → append "vc:" s ≢ append "mgmt:" t
vc_not_mgmt s t e = ground (arith, ap first e)

attempts_not_retry : (id : String) → retry_zset_key ≢ attempts_key_text id
unfolding key
attempts_not_retry id e =
    ground (arith, ap first (key-inj "mgmt:webhook:" "retry" (append "attempts:" id) e))

-- Under any configured prefix the cache's keys stay apart: the attempt counters of two sessions have one
-- key only if the sessions are one, no counter has the key of the retry schedule, and neither has a
-- key that starts with "vc:", as all keys of the handoff contract and the response codes do.
pub keys-apart :
    (p id other k rest : String)
    → attempts_key (new_prefix p) id ≡ attempts_key (new_prefix p) other
    → k ≡ append "vc:" rest
    → (id ≡ other)
      × (zset_key (new_prefix p) ≢ attempts_key (new_prefix p) id)
      × (key (new_prefix p) k ≢ attempts_key (new_prefix p) id)
      × (key (new_prefix p) k ≢ zset_key (new_prefix p))
unfolding attempts_key zset_key
keys-apart p id other k rest same external =
    let prefix = new_prefix p in
    (
      key-inj "mgmt:webhook:attempts:" id other
          (unfold key in key-inj prefix (attempts_key_text id) (attempts_key_text other) same),
      λ e. attempts_not_retry id (key-inj prefix retry_zset_key (attempts_key_text id) e),
      λ e.
          vc_not_mgmt rest (append "webhook:attempts:" id)
            (sym external ∙ key-inj prefix k (attempts_key_text id) e),
      λ e. vc_not_mgmt rest "webhook:retry" (sym external ∙ key-inj prefix k retry_zset_key e),
    )
