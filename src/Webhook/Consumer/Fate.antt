-- ===== src/Webhook/Consumer/Fate.antt =====
-- What becomes of a session that a poll cycle works on.
use eudi_api_management.Base.{
  ℕ, suc, String, ◌≡◌, ◌≢◌, refl, ◌⊎◌, inl, inr, true, false, none, some, ◌∷◌, ◌==◌, eq_iff, arith,
  Bool-cases, Option-cases,
}
use eudi_api_management.Base.Results.{Result, ok, err}
use eudi_api_management.Base.Dict.{lookup}
use eudi_api_management.Wire.{Envelope}
use eudi_api_management.Results.{Reply, value, nil, failed}
use eudi_api_management.Valkey.{Valkey, get_payload, lpush}
use eudi_api_management.Webhook.Retrier.{RetryError, schedule, attempts}
use eudi_api_management.Webhook.Retrier.Schedule.{schedule-ok}
use eudi_api_management.Webhook.Deliverer.{DeliveryError, permanent, transient, deliver}
use eudi_api_management.Webhook.Consumer.{
  World, Services, terminal, settle_schedule, reschedule, settle, process_envelope, process_payload,
  process_one,
}

-- The counters of a world against those of an earlier one.
abbrev SameCounters : {S : Type 0} → World S → World S → Type 0
SameCounters w w' = (w'.delivered ≡ w.delivered) × (w'.failures ≡ w.failures)

abbrev Delivered : {S : Type 0} → World S → World S → Type 0
Delivered w w' = (w'.delivered ≡ suc w.delivered) × (w'.failures ≡ w.failures)

abbrev Failed : {S : Type 0} → World S → World S → Type 0
Failed w w' = (w'.delivered ≡ w.delivered) × (w'.failures ≡ suc w.failures)

-- The session stands in the retry schedule.
abbrev IsScheduled : {S : Type 0} → String → World S → Type 0
IsScheduled id w' = (score : ℕ) × (lookup id w'.valkey.retries ≡ some score)

-- the counter of attempts as a cycle reads it: one that cannot be read counts as 0
abbrev pub counted : Reply ℕ → ℕ
counted (value n) = n
counted nil = 0
counted failed = 0

module _ {S : Type 0} (services : Services S) (now : ℕ) where
  -- what the retrier answers for a session whose delivery failed, from this state of the cache
  abbrev retry_answer : String → ℕ → Valkey → Result RetryError Unit
  retry_answer id expires_at v =
      let (reply, v') = attempts services.faults now id v in
      (schedule services.faults services.retrier now id (counted reply) expires_at v').0

  abbrev outcome_of : Envelope → Result DeliveryError Unit
  outcome_of env = (deliver services.codec services.keys services.doer env).outcome

  -- why a session fails once its delivery was tried: for good, or for now and not to be retried
  abbrev DeliveryFault : String → Envelope → Valkey → Type 0
  DeliveryFault id env v =
      (outcome_of env ≡ err permanent)
      ⊎ ((outcome_of env ≡ err transient)
          × ((e : RetryError) × (retry_answer id env.expires_at v ≡ err e)))

  abbrev Rescheduled : String → ℕ → World S → World S → Type 0
  Rescheduled id expires_at w w' =
      (Failed w w' × ((e : RetryError) × (retry_answer id expires_at w.valkey ≡ err e)))
      ⊎ (SameCounters w w' × IsScheduled id w' × (retry_answer id expires_at w.valkey ≡ ok tt))

  settle_schedule-fate :
      (id : String) (w : World S) (attempt expires_at : ℕ) (v : Valkey) (r : Result RetryError Unit)
      → (schedule services.faults services.retrier now id attempt expires_at v).0 ≡ r
      → let w' =
          settle_schedule services now id w
            (r, (schedule services.faults services.retrier now id attempt expires_at v).1) in
        (Failed w w' × ((e : RetryError) × (r ≡ err e)))
        ⊎ (SameCounters w w' × IsScheduled id w' × (r ≡ ok tt))
  unfolding terminal
  settle_schedule-fate id w attempt expires_at v (err e) h = inl ((refl, refl), (e, refl))
  settle_schedule-fate id w attempt expires_at v (ok u) h =
      let (below, alive, inside, there, number) =
        schedule-ok services.faults services.retrier now id attempt expires_at v h in
      inr ((refl, refl), (_, there), refl)

  reschedule-fate :
      (id : String) (expires_at : ℕ) (w : World S)
      → Rescheduled id expires_at w (reschedule services now id expires_at w)
  unfolding reschedule
  reschedule-fate id expires_at w =
      let (reply, v) = attempts services.faults now id w.valkey in
      settle_schedule-fate id (record w { valkey = v }) (counted reply) expires_at v _ refl

  -- The envelope of a payload that was read.
  abbrev IsEnvelope : Reply String → Envelope → Type 0
  IsEnvelope reply env =
      (raw : String) × (reply ≡ value raw) × (services.codec.decode_envelope raw ≡ some env)

  -- The ends of a session whose envelope was read.
  abbrev IsOutcome : String → Envelope → Valkey → World S → World S → Type 0
  IsOutcome id env v w w' =
      (Delivered w w' × (env.webhook_url ≢ "") × (outcome_of env ≡ ok tt))
      ⊎ (Failed w w' × (env.webhook_url ≢ "") × DeliveryFault id env v)
      ⊎ (SameCounters w w'
          × IsScheduled id w'
          × (env.webhook_url ≢ "")
          × (outcome_of env ≡ err transient)
          × (retry_answer id env.expires_at v ≡ ok tt))
      ⊎ (SameCounters w w' × (w'.valkey ≡ v) × (env.webhook_url ≡ ""))

  settle-fate :
      (id : String) (env : Envelope) (outcome : Result DeliveryError Unit) (w : World S)
      → outcome_of env ≡ outcome
      → env.webhook_url ≢ ""
      → IsOutcome id env w.valkey w (settle services now id env.expires_at outcome w)
  unfolding settle terminal
  settle-fate id env (ok u) w h hooked = inl ((refl, refl), hooked, h)
  settle-fate id env (err permanent) w h hooked = inr (inl ((refl, refl), hooked, inl h))
  settle-fate id env (err transient) w h hooked = elim (reschedule-fate id env.expires_at w) [
    | inl (bad, why) ↦ inr (inl (bad, hooked, inr (h, why)))
    | inr (same, there, again) ↦ inr (inr (inl (same, there, hooked, h, again)))
  ]

  envelope_fate :
      (id : String) (env : Envelope) (w : World S)
      → IsOutcome id env w.valkey w (process_envelope services now id env w)
  unfolding process_envelope
  envelope_fate id env w = elim (Bool-cases (env.webhook_url == "")) [
    | inl bare ↦ rw bare (inr (inr (inr ((refl, refl), refl, (eq_iff _ _).0 bare))))
    | inr hooked ↦ rw hooked (
        settle-fate id env (outcome_of env) _ refl
          (λ e. ground (arith, (eq_iff env.webhook_url "").1 e)))
  ]

  -- The session is at the head of the queue again, or LPUSH has failed and it is not put anywhere.
  abbrev IsPushedBack : String → Valkey → World S → Type 0
  IsPushedBack id v w' =
      ((lpush services.faults id v).0 ≡ true) × (w'.valkey.queue ≡ id ∷ v.queue)
      ⊎ ((lpush services.faults id v).0 ≡ false)
        × (w'.valkey.queue ≡ v.queue)
        × (w'.valkey.retries ≡ v.retries)

  pushed_back :
      (id : String) (w : World S)
      → IsPushedBack id w.valkey (process_payload services now id failed w)
  unfolding process_payload lpush
  pushed_back id w = elim (Bool-cases (services.faults w.valkey.served)) [
    | inl bad ↦ rw bad (inr (refl, refl, refl))
    | inr good ↦ rw good (inl (refl, refl))
  ]

  -- The ends of a session, by what the read of its payload gave.
  abbrev pub IsSettlement : String → Reply String → Valkey → World S → World S → Type 0
  IsSettlement id reply v w w' =
      ((env : Envelope) × IsEnvelope reply env × IsOutcome id env v w w')
      ⊎ (Failed w w' × (reply ≡ nil))
      ⊎ (Failed w w'
          × ((raw : String) × (reply ≡ value raw) × (services.codec.decode_envelope raw ≡ none)))
      ⊎ (SameCounters w w' × (reply ≡ failed) × IsPushedBack id v w')

  payload_fate :
      (id : String) (reply : Reply String) (w : World S)
      → IsSettlement id reply w.valkey w (process_payload services now id reply w)
  unfolding terminal process_payload
  payload_fate id nil w = inr (inl ((refl, refl), refl))
  payload_fate id failed w = inr (inr (inr ((refl, refl), refl, pushed_back id w)))
  payload_fate id (value raw) w = elim (Option-cases (services.codec.decode_envelope raw)) [
    | inl bad ↦ rw (process_payload, bad) (inr (inr (inl ((refl, refl), (raw, refl, bad)))))
    | inr (env, decoded) ↦
        rw (process_payload, decoded) (inl (env, (raw, refl, decoded), envelope_fate id env w))
  ]

  -- What becomes of a session that is worked on is told by the read of its payload.
  -- A payload that is gone or does not decode is counted as one failure. With an envelope that has a
  -- webhook, the session is counted as one delivery if the delivery succeeds, and as one failure if it
  -- fails for good, or fails for now and the retrier refuses another attempt; if the retrier takes
  -- it, no count rises and the session stands in the retry schedule. With an envelope that has no
  -- webhook, no count rises and the cache stays as it was after the read. If the read fails, no count
  -- rises and the session is pushed to the head of the queue, or that push fails as well, and queue
  -- and schedule stay without it being put back. There is no other end.
  pub process_one-fate :
      (id : String) (w : World S)
      → let (reply, v) = get_payload services.faults now id w.valkey in
        IsSettlement id reply v w (process_one services now id w)
  unfolding process_one
  process_one-fate id w =
      let (reply, v) = get_payload services.faults now id w.valkey in
      payload_fate id reply (record w { valkey = v })
