-- ===== src/Webhook/Retrier.antt =====
-- internal/webhook/retry.go: the retry schedule. Instants are nanoseconds since the Unix epoch;
-- a duration is an int64, and its product wraps.
pub mod Claimed
pub mod Keys
pub mod Schedule
pub mod Claims
use eudi_api_management.Base.{
  ℕ, suc, ◌+◌, ◌-◌, ◌*◌, ◌/◌, String, Bool, true, false, Option, none, some, List, [], ◌∷◌, ◌++◌,
  ltb, leb, nat_eq, if◌then◌else◌,
}
use eudi_api_management.Base.Int64.{ℤ, pos, negsuc, to_int64, shift_one}
use eudi_api_management.Base.Results.{Result, ok, err}
use eudi_api_management.Results.{Reply, value, nil, failed}
use eudi_api_management.Valkey.{Valkey, Faults, get_attempts, set_attempts, zadd, zrange, zrem}

-- `max_attempts` is positive in a valid configuration.
pub record Retrier : Type 0 where
  pub base : ℕ
  pub max_attempts : ℕ

pub data RetryError : Type 0 where
  expired exhausted persist_failed schedule_failed : RetryError

-- r.base * time.Duration(int64(1)<<uint(attempt))
unfoldable pub delay : ℕ → ℕ → ℤ
unfolding to_int64 shift_one
delay base attempt = to_int64 (base * shift_one attempt)

-- now.Add(d); an instant before the epoch is not told apart from the epoch
unfoldable pub add_delay : ℕ → ℤ → ℕ
add_delay now (pos d) = now + d
add_delay now (negsuc d) = now - suc d

-- the second of an instant
abbrev pub unix : ℕ → ℕ
unix t = t / 1_000_000_000

module _ (faults : Faults) where
  -- ZAdd, after the counter was set
  unfoldable pub schedule_zadd : String → ℕ → Valkey → Result RetryError Unit × Valkey
  schedule_zadd id next v =
      let (done, v') = zadd faults id (unix next) v in
      (if done then ok tt else err schedule_failed, v')

  -- Set of the counter, then ZAdd
  unfoldable pub schedule_writes :
      Retrier → ℕ → String → ℕ → ℕ → ℕ → Valkey → Result RetryError Unit × Valkey
  schedule_writes r now id attempt next expires_at v =
      let (done, v') = set_attempts faults now id (attempt + 1) (expires_at - now) v in
      if done then schedule_zadd id next v' else (err persist_failed, v')

  -- Schedule
  unfoldable pub schedule : Retrier → ℕ → String → ℕ → ℕ → Valkey → Result RetryError Unit × Valkey
  schedule r now id attempt expires_at v =
      let next = add_delay now (delay r.base attempt) in
      if leb r.max_attempts attempt
      then (err exhausted, v)
      else if ltb expires_at next
      then (err expired, v)
      else if leb expires_at now
      then (err expired, v)
      else schedule_writes r now id attempt next expires_at v

  -- the loop of Due over the members in range, with what is claimed so far; `failed` is its error
  unfoldable pub claim_loop : List String → List String → Valkey → Reply (List String) × Valkey
  claim_loop [] claimed v = (value claimed, v)
  claim_loop (id ∷ ids) claimed v =
      let (reply, v') = zrem faults id v in
      elim reply [
        | value n ↦ claim_loop ids (if nat_eq n 1 then claimed ++ id ∷ [] else claimed) v'
        | nil ↦ (failed, v')
        | failed ↦ (failed, v')
      ]

  abbrev claim_reply : Reply (List String) × Valkey → Reply (List String) × Valkey
  claim_reply (value ids, v) = claim_loop ids [] v
  claim_reply (nil, v) = (failed, v)
  claim_reply (failed, v) = (failed, v)

  -- Due
  unfoldable pub due : ℕ → Valkey → Reply (List String) × Valkey
  unfolding claim_loop
  due now v = claim_reply (zrange faults (unix now) v)

  -- attempts: 0 for a session that was never scheduled; `failed` is its error
  unfoldable pub attempts : ℕ → String → Valkey → Reply ℕ × Valkey
  attempts now id v =
      let (reply, v') = get_attempts faults now id v in
      (elim reply [ value n ↦ value n | nil ↦ value 0 | failed ↦ failed ], v')
