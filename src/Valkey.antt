-- ===== src/Valkey.antt =====
-- The shared Valkey instance as far as the service uses it: the documented behaviour of the commands
-- that internal/webhook, internal/results and routes/sessions.go send to it. The server is outside the
-- repository. Each kind of key of internal/keyspace and internal/webhook/retry.go has a field of its own,
-- under the part of the key that varies. A call of the client may fail: `Faults` says which calls do, by
-- their number since the start. A call that fails changes nothing: a command that took effect and
-- whose answer was lost is not covered. An entry with a lifetime is gone at its `expires_at`.
use Prim.Native.Nat.{Ordering}
use Prim.Native.String.{compare}
use eudi_api_management.Base.{
  ℕ, suc, ◌+◌, String, Bool, true, false, Option, none, some, List, [], ◌∷◌, ltb, leb, nat_eq,
  if◌then◌else◌,
}
use eudi_api_management.Base.Dict.{Dict, lookup, insert, delete}
use eudi_api_management.Results.{Reply, value, nil, failed}

pub record Stored : Type 0 where
  pub text : String
  pub expires_at : ℕ

pub record Counter : Type 0 where
  pub number : ℕ
  pub expires_at : ℕ

pub record Valkey : Type 0 where
  -- vc:handoff:payload:{id}
  pub payloads : Dict Stored
  -- vc:handoff:queue; the head of the list is its left end
  pub queue : List String
  -- mgmt:webhook:retry: a member with its score, in seconds
  pub retries : Dict ℕ
  -- mgmt:webhook:attempts:{id}
  pub attempts : Dict Counter
  -- vc:respcode:{code}
  pub resp_codes : Dict Stored
  -- how many calls were made
  pub served : ℕ

abbrev pub Faults : Type 0
Faults = ℕ → Bool

abbrev pub tick : Valkey → Valkey
tick v = record v { served = suc v.served }

abbrev pub live_text : ℕ → Option Stored → Reply String
live_text now none = nil
live_text now (some s) = if ltb now s.expires_at then value s.text else nil

abbrev pub live_number : ℕ → Option Counter → Reply ℕ
live_number now none = nil
live_number now (some c) = if ltb now c.expires_at then value c.number else nil

-- the last entry of a list, and the others
unfoldable pub pop_last : List String → Option (String × List String)
pop_last [] = none
pop_last (x ∷ xs) = elim (pop_last xs) [ none ↦ some (x, []) | some (y, ys) ↦ some (y, x ∷ ys) ]

-- members with a score of at most `limit`, by score and then by name
abbrev pub before_in_range : String × ℕ → String × ℕ → Bool
before_in_range (a, m) (b, n) =
    if ltb m n
    then true
    else if nat_eq m n
    then elim (compare a b) [ Ordering.lt ↦ true | _ ↦ false ]
    else false

unfoldable pub insert_by_score : String × ℕ → List (String × ℕ) → List (String × ℕ)
insert_by_score x [] = x ∷ []
insert_by_score x (y ∷ ys) = elim (before_in_range y x) [
  | true ↦ y ∷ insert_by_score x ys
  | false ↦ x ∷ y ∷ ys
]

unfoldable pub due_members : ℕ → Dict ℕ → List (String × ℕ)
unfolding insert_by_score
due_members limit [] = []
due_members limit ((id, score) ∷ rest) =
    let others = due_members limit rest in
    if leb score limit then insert_by_score (id, score) others else others

abbrev pub names : List (String × ℕ) → List String
names [] = []
names ((id, score) ∷ rest) = id ∷ names rest

module _ (faults : Faults) where
  -- RPOP of the queue
  unfoldable pub rpop : Valkey → Reply String × Valkey
  unfolding pop_last
  rpop v = if faults v.served then (failed, tick v) else elim (pop_last v.queue) [
    | none ↦ (nil, tick v)
    | some (id, rest) ↦ (value id, record (tick v) { queue = rest })
  ]

  -- LPUSH to the queue
  unfoldable pub lpush : String → Valkey → Bool × Valkey
  lpush id v =
      if faults v.served then (false, tick v) else (true, record (tick v) { queue = id ∷ v.queue })

  -- GET of a payload
  unfoldable pub get_payload : ℕ → String → Valkey → Reply String × Valkey
  get_payload now id v =
      if faults v.served then (failed, tick v) else (live_text now (lookup id v.payloads), tick v)

  -- GET of an attempt counter
  unfoldable pub get_attempts : ℕ → String → Valkey → Reply ℕ × Valkey
  get_attempts now id v =
      if faults v.served then (failed, tick v) else (live_number now (lookup id v.attempts), tick v)

  -- SET of an attempt counter with a lifetime
  unfoldable pub set_attempts : ℕ → String → ℕ → ℕ → Valkey → Bool × Valkey
  set_attempts now id n ttl v = if faults v.served then (false, tick v) else (
    true,
    record (tick v) {
      attempts = insert id (record { number = n; expires_at = now + ttl }) v.attempts;
    },
  )

  -- ZADD to the retry schedule
  unfoldable pub zadd : String → ℕ → Valkey → Bool × Valkey
  zadd id score v =
      if faults v.served
      then (false, tick v)
      else (true, record (tick v) { retries = insert id score v.retries })

  -- ZRANGEBYSCORE -inf limit of the retry schedule
  unfoldable pub zrange : ℕ → Valkey → Reply (List String) × Valkey
  unfolding due_members
  zrange limit v =
      if faults v.served
      then (failed, tick v)
      else (value (names (due_members limit v.retries)), tick v)

  -- ZREM from the retry schedule: how many members were removed
  unfoldable pub zrem : String → Valkey → Reply ℕ × Valkey
  zrem id v = if faults v.served then (failed, tick v) else elim (lookup id v.retries) [
    | none ↦ (value 0, tick v)
    | some score ↦ (value 1, record (tick v) { retries = delete id v.retries })
  ]

  -- GETDEL of a response code
  unfoldable pub getdel : ℕ → String → Valkey → Reply String × Valkey
  getdel now code v = if faults v.served then (failed, tick v) else (
    live_text now (lookup code v.resp_codes),
    record (tick v) { resp_codes = delete code v.resp_codes },
  )
