-- ===== src/Webhook/Consumer.antt =====
-- internal/webhook/consumer.go: `Consumer`, one poll cycle of the queue and of the due retries. The
-- session store and the outside services are arguments; `now` is the instant of the step.
pub mod Counts
pub mod Retries
pub mod Queue
pub mod Cycle
pub mod Drain
pub mod Fate
use eudi_api_management.Base.{
  ℕ, zero, suc, String, Bool, true, false, Option, none, some, List, [], ◌∷◌, ◌++◌, ◌==◌,
  if◌then◌else◌,
}
use eudi_api_management.Base.Results.{Result, ok, err}
use eudi_api_management.Errors.{Error}
use eudi_api_management.SessionDb.{Store}
use eudi_api_management.Wire.{Envelope, Codec, Keys}
use eudi_api_management.Results.{Reply, value, nil, failed}
use eudi_api_management.Valkey.{Valkey, Faults, rpop, lpush, get_payload}
use eudi_api_management.Webhook.Retrier.{Retrier, RetryError, schedule, due, attempts}
use eudi_api_management.Webhook.Deliverer.{
  DeliveryError, permanent, transient, Post, Doer, Delivery, deliver,
}

-- What a cycle works on: the cache, the session store, the two counters of
-- MetricWebhookDeliveryTotal and the requests sent so far.
pub record World (S : Type 0) : Type 0 where
  pub valkey : Valkey
  pub db : S
  pub delivered : ℕ
  pub failures : ℕ
  pub posts : List Post

-- The collaborators that a Consumer is built with.
pub record Services (S : Type 0) : Type 0 where
  pub store : Store S
  pub codec : Codec
  pub keys : Keys
  pub doer : Doer
  pub retrier : Retrier
  pub faults : Faults

module _ {S : Type 0} (services : Services S) (now : ℕ) where
  open services use {store, codec, keys, doer, retrier, faults}

  -- SetWebhookState, whose error is only logged
  unfoldable set_state : String → String → String → World S → World S
  set_state id state code w = record w { db = (store.set_webhook_state id state code w.db).1 }

  -- terminal
  unfoldable pub terminal : String → World S → World S
  unfolding set_state
  terminal id w =
      let w' = set_state id "failed" "err:webhook:deliveryFailed" w in
      record w' { failures = suc w'.failures }

  abbrev settle_schedule : String → World S → Result RetryError Unit × Valkey → World S
  settle_schedule id w (ok u, v) = record w { valkey = v }
  settle_schedule id w (err e, v) = terminal id (record w { valkey = v })

  -- a failed delivery that may succeed later; an unreadable counter counts as 0
  unfoldable pub reschedule : String → ℕ → World S → World S
  unfolding terminal
  reschedule id expires_at w =
      let (reply, v) = attempts faults now id w.valkey in
      let attempt : ℕ = elim reply [ value n ↦ n | nil ↦ 0 | failed ↦ 0 ] in
      settle_schedule id (record w { valkey = v })
        (schedule faults retrier now id attempt expires_at v)

  -- the part of processOne after Deliver
  unfoldable pub settle : String → ℕ → Result DeliveryError Unit → World S → World S
  unfolding set_state terminal reschedule
  settle id expires_at (ok u) w =
      let w' = set_state id "delivered" "" w in record w' { delivered = suc w'.delivered }
  settle id expires_at (err permanent) w = terminal id w
  settle id expires_at (err transient) w = reschedule id expires_at w

  -- the part of processOne for a decoded envelope
  unfoldable pub process_envelope : String → Envelope → World S → World S
  unfolding set_state settle
  process_envelope id env w =
      if env.webhook_url == ""
      then w
      else let w' = set_state id "delivering" "" w in
        let d = deliver codec keys doer env in
        settle id env.expires_at d.outcome (record w' { posts = w'.posts ++ d.sent })

  -- the part of processOne after the read of the payload
  unfoldable pub process_payload : String → Reply String → World S → World S
  unfolding terminal process_envelope
  process_payload id nil w = terminal id w
  process_payload id failed w = record w { valkey = (lpush faults id w.valkey).1 }
  process_payload id (value raw) w = elim (codec.decode_envelope raw) [
    | none ↦ terminal id w
    | some env ↦ process_envelope id env w
  ]

  -- processOne
  unfoldable pub process_one : String → World S → World S
  unfolding process_payload
  process_one id w =
      let (reply, v) = get_payload faults now id w.valkey in
      process_payload id reply (record w { valkey = v })

  -- The queue loop of runOnce, with fuel: `none` means that it ran out.
  unfoldable pub drain : ℕ → World S → Option (World S)
  unfolding process_one
  drain zero w = none
  drain (suc fuel) w =
      let (reply, v) = rpop faults w.valkey in
      let w' = record w { valkey = v } in
      elim reply [ nil ↦ some w' | failed ↦ some w' | value id ↦ drain fuel (process_one id w') ]

  unfoldable pub process_all : List String → World S → World S
  unfolding process_one
  process_all [] w = w
  process_all (id ∷ ids) w = process_all ids (process_one id w)

  abbrev retry_due : World S → Reply (List String) × Valkey → World S
  retry_due w (value ids, v) = process_all ids (record w { valkey = v })
  retry_due w (nil, v) = record w { valkey = v }
  retry_due w (failed, v) = record w { valkey = v }

  -- runOnce
  unfoldable pub run_once : ℕ → World S → Option (World S)
  unfolding drain process_all
  run_once fuel w = elim (drain fuel w) [
    | none ↦ none
    | some w' ↦ some (retry_due w' (due faults now w'.valkey))
  ]
