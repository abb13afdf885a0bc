-- ===== src/Webhook/Consumer/Counts.antt =====
-- What a step that puts a session in the retry schedule leaves in its attempt counter.
use eudi_api_management.Base.{
  ℕ, ◌+◌, ◌<◌, String, ◌≡◌, refl, ap, if◌then◌else◌, ◌∙◌, inl, inr, false, Option, none, some, ◌==◌,
  ltb, Bool-cases, Option-cases, subst,
}
use eudi_api_management.Base.Results.{Result, ok, err}
use eudi_api_management.Base.Dict.{lookup}
use eudi_api_management.Wire.{Envelope}
use eudi_api_management.Results.{Reply, value, nil, failed}
use eudi_api_management.Valkey.{
  Valkey, Counter, Stored, tick, get_payload, get_attempts, live_number,
}
use eudi_api_management.Webhook.Retrier.{RetryError, schedule, attempts}
use eudi_api_management.Webhook.Retrier.Schedule.{schedule-ok, schedule-err}
use eudi_api_management.Webhook.Deliverer.{DeliveryError, permanent, transient, deliver}
use eudi_api_management.Webhook.Consumer.{
  World, Services, terminal, settle_schedule, reschedule, settle, process_envelope, process_payload,
  process_one,
}

-- the count that a reply of the counter stands for
abbrev counted : Reply ℕ → ℕ
counted (value n) = n
counted nil = 0
counted failed = 0

module _ {S : Type 0} (services : Services S) (now : ℕ) (id : String) where
  open services use {faults, retrier}

  -- A retry that was scheduled: it counts one more attempt than the one before, is within the limit,
  -- and the counter lives as long as the envelope.
  abbrev pub Counts : ℕ → ℕ → Valkey → Type 0
  Counts attempt expires_at v =
      (attempt < retrier.max_attempts)
      × (now < expires_at)
      × (lookup id v.attempts ≡ some (record { number = attempt + 1; expires_at = expires_at }))

  settle_schedule-Counts :
      (w : World S) (attempt expires_at : ℕ) (v : Valkey) (score : ℕ) (r : Result RetryError Unit)
      → lookup id v.retries ≡ none
      → (schedule faults retrier now id attempt expires_at v).0 ≡ r
      → let w' =
          settle_schedule services now id w
            (r, (schedule faults retrier now id attempt expires_at v).1) in
        lookup id w'.valkey.retries ≡ some score → Counts attempt expires_at w'.valkey
  unfolding terminal
  settle_schedule-Counts w attempt expires_at v score (err e) out h there =
      cc (rw (schedule-err faults retrier now id attempt expires_at e v h) at there, out)
  settle_schedule-Counts w attempt expires_at v score (ok tt) out h there =
      let (below, alive, inside, entry, counter) =
        schedule-ok faults retrier now id attempt expires_at v h in
      (below, alive, counter)

  -- the attempts that a counter stands for
  abbrev pub tries : Option Counter → ℕ
  tries none = 0
  tries (some c) = if ltb now c.expires_at then c.number else 0

  module _ (quiet : (n : ℕ) → faults n ≡ false) where
    attempts-tries :
        (v : Valkey)
        → (counted (attempts faults now id v).0 ≡ tries (lookup id v.attempts))
          × ((attempts faults now id v).1 ≡ tick v)
    unfolding attempts get_attempts
    attempts-tries v = (
      rw (attempts, get_attempts, quiet v.served) (read (lookup id v.attempts)),
      rw (attempts, get_attempts, quiet v.served) refl,
    )
      where
        read :
            (o : Option Counter)
            → counted
                (elim (live_number now o) [ value n ↦ value n | nil ↦ value 0 | failed ↦ failed ])
              ≡ tries o
        read none = refl
        read (some c) = elim (Bool-cases (ltb now c.expires_at)) [
          | inl alive ↦ rw alive refl
          | inr over ↦ rw over refl
        ]

    reschedule-Counts :
        (expires_at : ℕ) (w : World S) (score : ℕ)
        → lookup id w.valkey.retries ≡ none
        → lookup id (reschedule services now id expires_at w).valkey.retries ≡ some score
        → Counts
            (tries (lookup id w.valkey.attempts))
            expires_at
            (reschedule services now id expires_at w).valkey
    unfolding reschedule
    reschedule-Counts expires_at w score out there =
        let (same, kept) = attempts-tries w.valkey in
        subst (λ n. Counts n expires_at (reschedule services now id expires_at w).valkey) same
          (settle_schedule-Counts (record w { valkey = (attempts faults now id w.valkey).1 })
            (counted (attempts faults now id w.valkey).0) expires_at
            (attempts faults now id w.valkey).1 score _ (ap (λ v. lookup id v.retries) kept ∙ out)
            refl there)

    settle-Counts :
        (expires_at : ℕ) (outcome : Result DeliveryError Unit) (w : World S) (score : ℕ)
        → lookup id w.valkey.retries ≡ none
        → lookup id (settle services now id expires_at outcome w).valkey.retries ≡ some score
        → Counts
            (tries (lookup id w.valkey.attempts))
            expires_at
            (settle services now id expires_at outcome w).valkey
    unfolding settle terminal
    settle-Counts expires_at (ok u) w score out there = cc
    settle-Counts expires_at (err permanent) w score out there = cc
    settle-Counts expires_at (err transient) w score out there =
        reschedule-Counts expires_at w score out there

    envelope-Counts :
        (env : Envelope) (w : World S) (score : ℕ)
        → lookup id w.valkey.retries ≡ none
        → lookup id (process_envelope services now id env w).valkey.retries ≡ some score
        → Counts
            (tries (lookup id w.valkey.attempts))
            env.expires_at
            (process_envelope services now id env w).valkey
    unfolding process_envelope
    envelope-Counts env w score out there = elim (Bool-cases (env.webhook_url == "")) [
      | inl bare ↦ cc
      | inr hooked ↦ rw hooked (
          settle-Counts env.expires_at
            (deliver services.codec services.keys services.doer env).outcome _ score out
            (rw hooked at there))
    ]

    -- A session that a step puts in the schedule has an envelope, whose lifetime the retry is in.
    pub process_one-Counts :
        (p : Stored) (w : World S) (score : ℕ)
        → lookup id w.valkey.payloads ≡ some p
        → lookup id w.valkey.retries ≡ none
        → lookup id (process_one services now id w).valkey.retries ≡ some score
        → (env : Envelope) × (services.codec.decode_envelope p.text ≡ some env)
          × Counts
              (tries (lookup id w.valkey.attempts))
              env.expires_at
              (process_one services now id w).valkey
    unfolding process_one process_payload terminal get_payload
    process_one-Counts p w score held out there = elim (Bool-cases (ltb now p.expires_at)) [
      | inr over ↦
          cc (rw (process_one, get_payload, quiet w.valkey.served, held, over) at there, out)
      | inl alive ↦ elim (Option-cases (services.codec.decode_envelope p.text)) [
        | inl bad ↦ cc (
          rw (process_one, get_payload, quiet w.valkey.served, held, alive, process_payload, bad) at
              there,
          out,
        )
        | inr (env, decoded) ↦
            let ticked : World S = record w { valkey = tick w.valkey } in
            let entered : process_one services now id w
                ≡ process_envelope services now id env ticked =
              rw
                (
                  process_one,
                  get_payload,
                  quiet w.valkey.served,
                  held,
                  alive,
                  process_payload,
                  decoded,
                )
                refl in
            (env, decoded, rw entered (envelope-Counts env ticked score out (rw entered at there)))
      ]
    ]
