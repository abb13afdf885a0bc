-- ===== src/Webhook/Consumer/Cycle.antt =====
-- A whole poll cycle.
use eudi_api_management.Base.{ℕ, ◌<◌, String, ◌≡◌, refl, ◌∙◌, false, some, List, [], ◌∷◌, length}
use eudi_api_management.Results.{value}
use eudi_api_management.Valkey.{Valkey, due_members, names, tick, zrange}
use eudi_api_management.Webhook.Retrier.{unix, due}
use eudi_api_management.Webhook.Retrier.Claims.{claim_loop-lem}
use eudi_api_management.Webhook.Consumer.{World, Services, process_one, process_all, run_once}
use eudi_api_management.Webhook.Consumer.Drain.{drain-empties}
use eudi_api_management.Webhook.Consumer.Queue.{process_one-Untouched}

module _ {S : Type 0} (services : Services S) (now : ℕ)
    (quiet : (n : ℕ) → services.faults n ≡ false) where
  process_all-queue :
      (ids : List String) (w : World S)
      → (process_all services now ids w).valkey.queue ≡ w.valkey.queue
  unfolding process_all
  process_all-queue [] w = refl
  process_all-queue (id ∷ ids) w =
      process_all-queue ids (process_one services now id w)
      ∙ (process_one-Untouched services now id w quiet).0

  due-claims :
      (v : Valkey)
      → (ids : List String) × (w : Valkey) × (due services.faults now v ≡ (value ids, w))
        × (w.queue ≡ v.queue)
  unfolding due zrange
  due-claims v =
      let members = names (due_members (unix now) v.retries) in
      let (out, w, claimed, counts, left, queue) =
        claim_loop-lem services.faults quiet members [] (tick v) in
      (out, w, rw (due, zrange, quiet v.served) claimed, queue)

  -- If no call of the cache fails, a cycle with a fuel above the length of the queue comes to its
  -- end, retries included, and leaves the queue empty.
  pub run_once-ok :
      (fuel : ℕ) (w : World S)
      → length w.valkey.queue < fuel
      → (w' : World S) × (run_once services now fuel w ≡ some w') × (w'.valkey.queue ≡ [])
  unfolding run_once
  run_once-ok fuel w enough =
      let (u, drained, empty) = drain-empties services now quiet fuel w enough in
      let (ids, v, claimed, kept) = due-claims u.valkey in
      (
        process_all services now ids (record u { valkey = v }),
        rw (run_once, drained, claimed),
        process_all-queue ids (record u { valkey = v }) ∙ kept ∙ empty,
      )
