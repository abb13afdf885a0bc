-- ===== src/Examples/Delivery.antt =====
-- Webhook delivery, retries and the sweep.
use eudi_api_management.Base.{
  ℕ, zero, suc, ◌≤◌, ◌<◌, ◌+◌, ◌*◌, String, ◌≡◌, ◌≢◌, refl, ◌⊎◌, inl, inr, Bool, true, false, ◌&&◌,
  Option, none, some, List, [], ◌∷◌, ◌++◌, ◌%◌, ◌↔◌, length, arith, count, contains, if◌then◌else◌,
  nat_eq,
}
use eudi_api_management.Base.Results.{err, ok}
use eudi_api_management.Base.Dict.{lookup}
use eudi_api_management.SessionDb.{Fake, Store, ExpiredSession}
use eudi_api_management.SessionDb.Expire.{fake_store}
use eudi_api_management.Results.{Reply, value, nil, failed, Fetched, fetch}
use eudi_api_management.Valkey.{Valkey, Faults, get_payload, lpush}
use eudi_api_management.Webhook.Signer.{sign_detached}
use eudi_api_management.Webhook.Retrier.{schedule, delay, add_delay, unix, claim_loop, due}
use eudi_api_management.Webhook.Retrier.Claimed.{IsDistinct, is_due_by, due-lem}
use eudi_api_management.Webhook.Retrier.Schedule.{schedule-ok}
use eudi_api_management.Webhook.Retrier.Claims.{is_member, claim_loop-lem, claim_loop-drops}
use eudi_api_management.Webhook.Consumer.{World, process_one, drain, run_once}
use eudi_api_management.Webhook.Consumer.Fate.{IsSettlement, process_one-fate}
use eudi_api_management.Webhook.Consumer.Drain.{drain-spins}
use eudi_api_management.Webhook.Consumer.Cycle.{run_once-ok}
use eudi_api_management.Webhook.Consumer.Retries.{Retried, retries-bounded}
use eudi_api_management.Webhook.Deliverer.{permanent, deliver}
use eudi_api_management.Webhook.Deliverer.Permanence.{IsCorrupt, deliver-permanent_iff}
use eudi_api_management.Examples.World.{
  envelope, kit, codec, keys, no_faults, session, sessions, overdue, cache, doer, retrier, services,
  world,
}

scheduled : (schedule no_faults retrier 10 "s1" 2 1000 cache).0 ≡ ok tt
unfolding schedule add_delay delay eudi_api_management.Webhook.Retrier.schedule_writes
    eudi_api_management.Valkey.set_attempts eudi_api_management.Webhook.Retrier.schedule_zadd
    eudi_api_management.Valkey.zadd
scheduled = refl

schedule-ok_example :
    (2 < 8)
    × (10 < 1000)
    × (add_delay 10 (delay 5 2) ≤ 1000)
    × (lookup "s1" (schedule no_faults retrier 10 "s1" 2 1000 cache).1.retries
        ≡ some (unix (add_delay 10 (delay 5 2))))
    × (lookup "s1" (schedule no_faults retrier 10 "s1" 2 1000 cache).1.attempts
        ≡ some (record { number = 3; expires_at = 1000 }))
schedule-ok_example = schedule-ok no_faults retrier 10 "s1" 2 1000 cache scheduled

abbrev two_due : Valkey
two_due = record cache { retries = ("s1", 0) ∷ ("s2", 0) ∷ [] }

claim_loop-lem_example :
    (out : List String) × (w : Valkey) × (claim_loop no_faults ("s1" ∷ "s2" ∷ []) [] two_due
      ≡ (value out, w))
    × ((k : String)
        → count k out
          ≡ 0
            + (if contains k ("s1" ∷ "s2" ∷ []) && is_member (lookup k two_due.retries)
                then 1
                else 0))
    × ((k : String)
        → lookup k w.retries
          ≡ (if contains k ("s1" ∷ "s2" ∷ []) then none else lookup k two_due.retries))
    × (w.queue ≡ two_due.queue)
claim_loop-lem_example = claim_loop-lem no_faults (λ n. refl) ("s1" ∷ "s2" ∷ []) [] two_due

-- a schedule with one session whose second has come
abbrev one_due : Valkey
one_due = record cache { retries = ("s1", 0) ∷ ("s2", 7) ∷ [] }

each_once : IsDistinct (eudi_api_management.Base.Dict.keys one_due.retries)
each_once = (refl, (refl, tt))

due-lem_example :
    (out : List String) × (w : Valkey) × (due no_faults 10 one_due ≡ (value out, w))
    × ((k : String)
        → count k out ≡ (if is_due_by (unix 10) (lookup k one_due.retries) then 1 else 0))
    × ((k : String)
        → lookup k w.retries ≡ (
            if is_due_by (unix 10) (lookup k one_due.retries)
            then none
            else lookup k one_due.retries))
    × (w.queue ≡ one_due.queue)
due-lem_example = due-lem no_faults (λ n. refl) 10 one_due each_once

-- the second call fails
abbrev second_fails : Faults
second_fails n = nat_eq n 1

claim_loop-drops_example :
    ((claim_loop second_fails ("s1" ∷ "s2" ∷ []) [] two_due).0 ≡ failed)
    × (lookup "s1" (claim_loop second_fails ("s1" ∷ "s2" ∷ []) [] two_due).1.retries ≡ none)
    × ((claim_loop second_fails ("s1" ∷ "s2" ∷ []) [] two_due).1.queue ≡ two_due.queue)
unfolding lookup
claim_loop-drops_example = claim_loop-drops second_fails "s1" "s2" [] two_due 0 refl refl refl

process_one-fate_example :
    let (reply, v) = get_payload no_faults 10 "s1" cache in
    IsSettlement
      (services (some 500) no_faults)
      10
      "s1"
      reply
      v
      world
      (process_one (services (some 500) no_faults) 10 "s1" world)
process_one-fate_example = process_one-fate (services (some 500) no_faults) 10 "s1" world

-- an answer 200 is a delivery, an answer 500 is scheduled again
delivered_at_200 : (process_one (services (some 200) no_faults) 10 "s1" world).delivered ≡ 1
unfolding process_one get_payload lookup eudi_api_management.Webhook.Deliverer.deliver
    eudi_api_management.Results.map_embedded sign_detached
delivered_at_200 = refl

scheduled_at_500 :
    lookup "s1" (process_one (services (some 500) no_faults) 10 "s1" world).valkey.retries ≡ some 0
unfolding process_one lookup get_payload eudi_api_management.Webhook.Deliverer.deliver
    eudi_api_management.Results.map_embedded sign_detached schedule
    eudi_api_management.Webhook.Retrier.attempts eudi_api_management.Valkey.get_attempts add_delay
    delay eudi_api_management.Webhook.Retrier.schedule_writes
    eudi_api_management.Valkey.set_attempts eudi_api_management.Webhook.Retrier.schedule_zadd
    eudi_api_management.Valkey.zadd eudi_api_management.Base.Dict.insert
scheduled_at_500 = refl

run_once-ok_example :
    (w' : World Fake) × (run_once (services (some 200) no_faults) 10 2 world ≡ some w')
    × (w'.valkey.queue ≡ [])
run_once-ok_example =
    run_once-ok (services (some 200) no_faults) 10 (λ n. refl) 2 world (omega arith)

-- every read of a payload fails: the second of each three calls
abbrev reads_fail : Faults
reads_fail n = nat_eq (n % 3) 1

drain-spins_example : drain (services (some 200) reads_fail) 10 100 world ≡ none
drain-spins_example =
    drain-spins (services (some 200) reads_fail) 10 (λ n. ground arith) (λ n. ground arith)
      (λ n. ground arith) 100 0 "s1" world refl refl

abbrev late : Fake
late = record sessions { sessions = ("s1", session) ∷ ("s2", overdue) ∷ [] }

abbrev swept : List ExpiredSession
swept =
    record {
      id = "s2";
      client_id = "alice";
      webhook_url = "https://rp.example/hook";
      correlation_id = "c1";
    }
    ∷ []

sweeps_overdue : ((fake_store kit 10).expire_due 2 late).0 ≡ ok swept
unfolding eudi_api_management.SessionDb.Expire.expire_due lookup
    eudi_api_management.SessionDb.is_due
sweeps_overdue = refl

signs : (body : String) → (signature : String) × (sign_detached keys body ≡ some signature)
unfolding sign_detached
signs body = ("h..s", refl)

abbrev fetched : Fetched
fetched = record { result = some (record { credentials = [] }); report = none; failure = none }

fetches : fetch codec keys (value "envelope") ≡ ok fetched
unfolding fetch
fetches = refl

deliver-permanent_iff_example :
    ((deliver codec keys (doer none) envelope).outcome ≡ err permanent)
    ↔ IsCorrupt codec keys (doer none) envelope
deliver-permanent_iff_example = deliver-permanent_iff codec keys (doer none) envelope

-- two rounds against a webhook that answers 500
Retried-twice : Retried (services (some 500) no_faults) "s1" (10 ∷ 20 ∷ []) world
unfolding process_one lookup get_payload eudi_api_management.Webhook.Deliverer.deliver
    eudi_api_management.Results.map_embedded sign_detached schedule
    eudi_api_management.Webhook.Retrier.attempts eudi_api_management.Valkey.get_attempts add_delay
    delay eudi_api_management.Webhook.Retrier.schedule_writes
    eudi_api_management.Valkey.set_attempts eudi_api_management.Webhook.Retrier.schedule_zadd
    eudi_api_management.Valkey.zadd eudi_api_management.Base.Dict.insert
    eudi_api_management.Valkey.zrem eudi_api_management.Base.Dict.delete
Retried-twice = ((0, refl), ((0, refl), tt))

envelope_decodes : codec.decode_envelope "envelope" ≡ some envelope
envelope_decodes = refl

held : lookup "s1" world.valkey.payloads ≡ some (record { text = "envelope"; expires_at = 1000 })
unfolding lookup
held = refl

untried : lookup "s1" world.valkey.attempts ≡ none
unfolding lookup
untried = refl

retries-bounded_example : length {A = ℕ} (10 ∷ 20 ∷ []) ≤ 8
retries-bounded_example =
    retries-bounded (services (some 500) no_faults) "s1" (λ n. refl)
      (record { text = "envelope"; expires_at = 1000 }) envelope (10 ∷ 20 ∷ []) world
      envelope_decodes held untried Retried-twice
