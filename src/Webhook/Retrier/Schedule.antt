-- ===== src/Webhook/Retrier/Schedule.antt =====
-- `Schedule`: what a retry that is scheduled has, and that a refusal writes nothing.
use eudi_api_management.Base.{
  ℕ, suc, ◌+◌, ◌-◌, ◌*◌, ◌^◌, ◌≤◌, ◌<◌, String, ◌≡◌, refl, ◌⊎◌, inl, inr, some, arith, ltb, leb,
  Bool-cases,
}
use eudi_api_management.Base.Int64.{pos, to_int64-small, shift_one-small}
use eudi_api_management.Base.Results.{ok, err}
use eudi_api_management.Base.Dict.{lookup, insert, lookup-insert_self}
use eudi_api_management.Valkey.{Valkey, Faults, set_attempts, zadd}
use eudi_api_management.Webhook.Retrier.{
  Retrier, RetryError, expired, exhausted, persist_failed, schedule_failed, delay, add_delay, unix,
  schedule_zadd, schedule_writes, schedule,
}

-- The delay is the base times a power of two, as long as the product is an int64.
delay-pow :
    (base attempt : ℕ)
    → attempt < 64
    → base * 2 ^ attempt < 2 ^ 63
    → delay base attempt ≡ pos (base * 2 ^ attempt)
unfolding delay
delay-pow base attempt small fits =
    rw (shift_one-small attempt small) (to_int64-small (base * 2 ^ attempt) fits)

module _ (faults : Faults) (r : Retrier) (now : ℕ) (id : String) (attempt expires_at : ℕ)
    (v : Valkey) where
  zadd-ok :
      (next : ℕ) (w : Valkey)
      → (schedule_zadd faults id next w).0 ≡ ok tt
      → (lookup id (schedule_zadd faults id next w).1.retries ≡ some (unix next))
        × ((schedule_zadd faults id next w).1.attempts ≡ w.attempts)
  unfolding schedule_zadd zadd
  zadd-ok next w e = elim (Bool-cases (faults w.served)) [
    | inl refused ↦ cc (rw refused at e)
    | inr served ↦ rw served (lookup-insert_self id (unix next) w.retries, refl)
  ]

  writes-ok :
      (next : ℕ)
      → now < expires_at
      → (schedule_writes faults r now id attempt next expires_at v).0 ≡ ok tt
      → (lookup id (schedule_writes faults r now id attempt next expires_at v).1.retries
          ≡ some (unix next))
        × (lookup id (schedule_writes faults r now id attempt next expires_at v).1.attempts
            ≡ some (record { number = attempt + 1; expires_at = expires_at }))
  unfolding schedule_writes set_attempts
  writes-ok next later e = elim (Bool-cases (faults v.served)) [
    | inl refused ↦ cc (rw refused at e)
    | inr served ↦
        let w = record v {
          attempts =
              insert id (record { number = attempt + 1; expires_at = now + (expires_at - now) })
                v.attempts;
          served = suc v.served;
        } in
        let (scheduled, counted) = zadd-ok next w (rw served at e) in
        let same : now + (expires_at - now) ≡ expires_at = omega arith in
        rw served (scheduled, rw (counted, same) (lookup-insert_self id _ v.attempts))
  ]

  -- A retry that is scheduled is below the attempt limit and its instant, the delay of the attempt
  -- after now, is not past the deadline. It stands in the schedule at that second, and the counter
  -- holds one attempt more and lives until the deadline.
  pub schedule-ok :
      (schedule faults r now id attempt expires_at v).0 ≡ ok tt
      → (attempt < r.max_attempts)
        × (now < expires_at)
        × (add_delay now (delay r.base attempt) ≤ expires_at)
        × (lookup id (schedule faults r now id attempt expires_at v).1.retries
            ≡ some (unix (add_delay now (delay r.base attempt))))
        × (lookup id (schedule faults r now id attempt expires_at v).1.attempts
            ≡ some (record { number = attempt + 1; expires_at = expires_at }))
  unfolding schedule
  schedule-ok e =
      let next = add_delay now (delay r.base attempt) in
      elim (Bool-cases (leb r.max_attempts attempt)) [
        | inl spent ↦ cc (rw spent at e)
        | inr left ↦ elim (Bool-cases (ltb expires_at next)) [
          | inl past ↦ cc (rw (left, past) at e)
          | inr inside ↦ elim (Bool-cases (leb expires_at now)) [
            | inl over ↦ cc (rw (left, inside, over) at e)
            | inr alive ↦
                let (scheduled, counted) =
                  writes-ok next (ground arith) (rw (left, inside, alive) at e) in
                rw (left, inside, alive)
                  (ground arith, ground arith, ground arith, scheduled, counted)
          ]
        ]
      ]

  writes_failure :
      (next : ℕ) (e : RetryError)
      → (schedule_writes faults r now id attempt next expires_at v).0 ≡ err e
      → (e ≡ persist_failed) ⊎ (e ≡ schedule_failed)
  unfolding schedule_writes schedule_zadd
  writes_failure next e h = ground arith

  not_written :
      (e : RetryError)
      → (e ≡ exhausted) ⊎ (e ≡ expired)
      → (e ≡ persist_failed) ⊎ (e ≡ schedule_failed)
      → ⊥
  not_written exhausted a b = ground arith
  not_written expired a b = ground arith
  not_written persist_failed a b = ground arith
  not_written schedule_failed a b = ground arith

  -- A refusal as exhausted or expired has written nothing: neither the counter nor the schedule.
  schedule-refused :
      (e : RetryError)
      → (schedule faults r now id attempt expires_at v).0 ≡ err e
      → (e ≡ exhausted) ⊎ (e ≡ expired)
      → (schedule faults r now id attempt expires_at v).1 ≡ v
  unfolding schedule
  schedule-refused e h which =
      let next = add_delay now (delay r.base attempt) in
      elim (Bool-cases (leb r.max_attempts attempt)) [
        | inl spent ↦ rw spent
        | inr left ↦ elim (Bool-cases (ltb expires_at next)) [
          | inl past ↦ rw (left, past)
          | inr inside ↦ elim (Bool-cases (leb expires_at now)) [
            | inl over ↦ rw (left, inside, over)
            | inr alive ↦
                absurd (not_written e which (writes_failure next e (rw (left, inside, alive) at h)))
          ]
        ]
      ]

module _ (faults : Faults) where
  zadd-err :
      (id : String) (next : ℕ) (e : RetryError) (v : Valkey)
      → (schedule_zadd faults id next v).0 ≡ err e
      → (schedule_zadd faults id next v).1.retries ≡ v.retries
  unfolding schedule_zadd zadd
  zadd-err id next e v h = elim (Bool-cases (faults v.served)) [
    | inl bad ↦ rw bad
    | inr good ↦ cc (rw good at h)
  ]

  writes-err :
      (r : Retrier) (now : ℕ) (id : String) (attempt next expires_at : ℕ) (e : RetryError)
      (v : Valkey)
      → (schedule_writes faults r now id attempt next expires_at v).0 ≡ err e
      → (schedule_writes faults r now id attempt next expires_at v).1.retries ≡ v.retries
  unfolding schedule_writes set_attempts
  writes-err r now id attempt next expires_at e v h = elim (Bool-cases (faults v.served)) [
    | inl bad ↦ rw bad
    | inr good ↦ rw good (zadd-err id next e _ (rw good at h))
  ]

  -- A refusal leaves the schedule alone, also one that has written the counter.
  pub schedule-err :
      (r : Retrier) (now : ℕ) (id : String) (attempt expires_at : ℕ) (e : RetryError) (v : Valkey)
      → (schedule faults r now id attempt expires_at v).0 ≡ err e
      → (schedule faults r now id attempt expires_at v).1.retries ≡ v.retries
  unfolding schedule
  schedule-err r now id attempt expires_at e v h = elim (Bool-cases (leb r.max_attempts attempt)) [
    | inl spent ↦ rw spent
    | inr left ↦ elim (Bool-cases (ltb expires_at (add_delay now (delay r.base attempt)))) [
      | inl past ↦ rw (left, past)
      | inr inside ↦ elim (Bool-cases (leb expires_at now)) [
        | inl over ↦ rw (left, inside, over)
        | inr alive ↦
            rw (left, inside, alive)
              (writes-err r now id attempt _ expires_at e v (rw (left, inside, alive) at h))
      ]
    ]
  ]
