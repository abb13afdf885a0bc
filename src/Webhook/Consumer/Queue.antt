-- ===== src/Webhook/Consumer/Queue.antt =====
-- What a step of a poll cycle does to the queue.
use eudi_api_management.Base.{
  ℕ, suc, String, ◌≡◌, refl, ap, ◌∙◌, inl, inr, false, Option, none, some, List, [], ◌∷◌, ◌==◌, leb,
  ltb, length, Bool-cases, Option-cases,
}
use eudi_api_management.Base.Results.{Result, ok, err}
use eudi_api_management.Base.Dict.{lookup}
use eudi_api_management.Wire.{Envelope}
use eudi_api_management.Results.{Reply, value, nil, failed}
use eudi_api_management.Valkey.{
  Valkey, Faults, pop_last, tick, rpop, get_payload, get_attempts, set_attempts, zadd, live_text,
  Stored,
}
use eudi_api_management.Webhook.Retrier.{
  Retrier, RetryError, delay, add_delay, schedule_zadd, schedule_writes, schedule, attempts,
}
use eudi_api_management.Webhook.Deliverer.{DeliveryError, permanent, transient, deliver}
use eudi_api_management.Webhook.Consumer.{
  World, Services, terminal, settle_schedule, reschedule, settle, process_envelope, process_payload,
  process_one,
}

pub pop_last-none : (xs : List String) → pop_last xs ≡ none → xs ≡ []
unfolding pop_last
pop_last-none [] h = refl
pop_last-none (x ∷ xs) h = elim (Option-cases (pop_last xs)) [
  | inl e ↦ cc (rw (pop_last, e) at h)
  | inr (p, e) ↦ cc (rw (pop_last, e) at h)
]

pub pop_last-length :
    (xs : List String) (y : String) (ys : List String)
    → pop_last xs ≡ some (y, ys)
    → length xs ≡ suc (length ys)
unfolding pop_last
pop_last-length [] y ys h = cc
pop_last-length (x ∷ xs) y ys h = elim (Option-cases (pop_last xs)) [
  | inl e ↦
      let same : x ∷ xs ≡ y ∷ ys = cc (rw (pop_last, e) at h, pop_last-none xs e) in
      let empty : [] ≡ ys = cc (rw (pop_last, e) at h) in
      ap suc (ap length (pop_last-none xs e ∙ empty))
  | inr ((z, zs), e) ↦
      let same : x ∷ zs ≡ ys = cc (rw (pop_last, e) at h) in
      ap suc (pop_last-length xs z zs e ∙ ap length same)
]

live_text-read : (now : ℕ) (o : Option Stored) → live_text now o ≡ failed → ⊥
live_text-read now none h = cc
live_text-read now (some s) h = elim (Bool-cases (ltb now s.expires_at)) [
  | inl alive ↦ cc (rw alive at h)
  | inr over ↦ cc (rw over at h)
]

-- A step that leaves the queue and the payloads alone.
abbrev Untouched : Valkey → Valkey → Type 0
Untouched v v' = (v'.queue ≡ v.queue) × (v'.payloads ≡ v.payloads)

module _ (faults : Faults) where
  zadd-Untouched :
      (id : String) (next : ℕ) (v : Valkey) → Untouched v (schedule_zadd faults id next v).1
  unfolding schedule_zadd zadd
  zadd-Untouched id next v = elim (Bool-cases (faults v.served)) [
    | inl bad ↦ rw bad (refl, refl)
    | inr good ↦ rw good (refl, refl)
  ]

  writes-Untouched :
      (r : Retrier) (now : ℕ) (id : String) (attempt next expires_at : ℕ) (v : Valkey)
      → Untouched v (schedule_writes faults r now id attempt next expires_at v).1
  unfolding schedule_writes set_attempts
  writes-Untouched r now id attempt next expires_at v = elim (Bool-cases (faults v.served)) [
    | inl bad ↦ rw bad (refl, refl)
    | inr good ↦ rw good (zadd-Untouched id next _)
  ]

  schedule-Untouched :
      (r : Retrier) (now : ℕ) (id : String) (attempt expires_at : ℕ) (v : Valkey)
      → Untouched v (schedule faults r now id attempt expires_at v).1
  unfolding schedule
  schedule-Untouched r now id attempt expires_at v =
      elim (Bool-cases (leb r.max_attempts attempt)) [
        | inl spent ↦ rw spent (refl, refl)
        | inr left ↦ elim (Bool-cases (ltb expires_at (add_delay now (delay r.base attempt)))) [
          | inl past ↦ rw (left, past) (refl, refl)
          | inr inside ↦ elim (Bool-cases (leb expires_at now)) [
            | inl over ↦ rw (left, inside, over) (refl, refl)
            | inr alive ↦
                rw (left, inside, alive) (writes-Untouched r now id attempt _ expires_at v)
          ]
        ]
      ]

  attempts-Untouched :
      (now : ℕ) (id : String) (v : Valkey) → Untouched v (attempts faults now id v).1
  unfolding attempts get_attempts
  attempts-Untouched now id v = elim (Bool-cases (faults v.served)) [
    | inl bad ↦ rw bad (refl, refl)
    | inr good ↦ rw good (refl, refl)
  ]

  pub rpop-empty :
      (v : Valkey)
      → faults v.served ≡ false
      → pop_last v.queue ≡ none
      → rpop faults v ≡ (nil, tick v)
  unfolding rpop
  rpop-empty v good empty = rw (good, empty)

  pub rpop-some :
      (v : Valkey) (id : String) (rest : List String)
      → faults v.served ≡ false
      → pop_last v.queue ≡ some (id, rest)
      → rpop faults v ≡ (value id, record (tick v) { queue = rest })
  unfolding rpop
  rpop-some v id rest good popped = rw (good, popped)

module _ {S : Type 0} (services : Services S) (now : ℕ) where
  settle_schedule-Untouched :
      (id : String) (w : World S) (x : Result RetryError Unit × Valkey)
      → Untouched x.1 (settle_schedule services now id w x).valkey
  unfolding terminal
  settle_schedule-Untouched id w (ok u, v) = (refl, refl)
  settle_schedule-Untouched id w (err e, v) = (refl, refl)

  reschedule-Untouched :
      (id : String) (expires_at : ℕ) (w : World S)
      → Untouched w.valkey (reschedule services now id expires_at w).valkey
  unfolding reschedule
  reschedule-Untouched id expires_at w =
      let (q, p) =
        settle_schedule-Untouched id
          (record w { valkey = (attempts services.faults now id w.valkey).1 }) _ in
      let (q', p') = schedule-Untouched services.faults services.retrier now id _ expires_at _ in
      let (q'', p'') = attempts-Untouched services.faults now id w.valkey in
      (q ∙ q' ∙ q'', p ∙ p' ∙ p'')

  settle-Untouched :
      (id : String) (expires_at : ℕ) (outcome : Result DeliveryError Unit) (w : World S)
      → Untouched w.valkey (settle services now id expires_at outcome w).valkey
  unfolding settle terminal
  settle-Untouched id expires_at (ok u) w = (refl, refl)
  settle-Untouched id expires_at (err permanent) w = (refl, refl)
  settle-Untouched id expires_at (err transient) w = reschedule-Untouched id expires_at w

  envelope-Untouched :
      (id : String) (env : Envelope) (w : World S)
      → Untouched w.valkey (process_envelope services now id env w).valkey
  unfolding process_envelope
  envelope-Untouched id env w = elim (Bool-cases (env.webhook_url == "")) [
    | inl bare ↦ rw bare (refl, refl)
    | inr hooked ↦ rw hooked (
        settle-Untouched id env.expires_at
          (deliver services.codec services.keys services.doer env).outcome _)
  ]

  payload-Untouched :
      (id : String) (reply : Reply String) (w : World S)
      → ((reply ≡ failed) → ⊥)
      → Untouched w.valkey (process_payload services now id reply w).valkey
  unfolding process_payload terminal
  payload-Untouched id nil w read = (refl, refl)
  payload-Untouched id failed w read = absurd (read refl)
  payload-Untouched id (value raw) w read =
      elim (Option-cases (services.codec.decode_envelope raw)) [
        | inl bad ↦ rw (process_payload, bad) (refl, refl)
        | inr (env, decoded) ↦ rw (process_payload, decoded) (envelope-Untouched id env w)
      ]

  -- A step whose read of the payload does not fail leaves the queue alone.
  pub process_one-Untouched :
      (id : String) (w : World S)
      → ((n : ℕ) → services.faults n ≡ false)
      → Untouched w.valkey (process_one services now id w).valkey
  unfolding process_one get_payload
  process_one-Untouched id w quiet =
      rw (quiet w.valkey.served) (
        payload-Untouched id (live_text now (lookup id w.valkey.payloads)) _ (live_text-read now _))
