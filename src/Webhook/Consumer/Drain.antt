-- ===== src/Webhook/Consumer/Drain.antt =====
-- How the queue loop of a poll cycle ends.
use eudi_api_management.Base.{
  ℕ, zero, suc, ◌*◌, ◌<◌, String, ◌≡◌, refl, ap, ◌∙◌, inl, inr, true, false, none, some, [], ◌∷◌,
  arith, length, Option-cases,
}
use eudi_api_management.Results.{value, nil}
use eudi_api_management.Valkey.{Valkey, pop_last, tick, rpop, lpush, get_payload}
use eudi_api_management.Webhook.Consumer.{World, Services, process_payload, process_one, drain}
use eudi_api_management.Webhook.Consumer.Queue.{
  pop_last-none, pop_last-length, rpop-empty, rpop-some, process_one-Untouched,
}

module _ {S : Type 0} (services : Services S) (now : ℕ) where
  drain-nil :
      (fuel : ℕ) (w : World S) (v : Valkey)
      → rpop services.faults w.valkey ≡ (nil, v)
      → drain services now (suc fuel) w ≡ some (record w { valkey = v })
  unfolding drain
  drain-nil fuel w v e = rw (drain, e, e)

  drain-value :
      (fuel : ℕ) (w : World S) (id : String) (v : Valkey)
      → rpop services.faults w.valkey ≡ (value id, v)
      → drain services now (suc fuel) w
        ≡ drain services now fuel (process_one services now id (record w { valkey = v }))
  unfolding drain
  drain-value fuel w id v e = rw (drain, e, e)

  -- If no call of the cache fails, a fuel above the length of the queue is enough, and the queue is
  -- empty afterwards.
  pub drain-empties :
      ((n : ℕ) → services.faults n ≡ false)
      → (fuel : ℕ) (w : World S) → length w.valkey.queue < fuel
      → (w' : World S) × (drain services now fuel w ≡ some w') × (w'.valkey.queue ≡ [])
  drain-empties quiet zero w enough = ground arith
  drain-empties quiet (suc fuel) w enough = elim (Option-cases (pop_last w.valkey.queue)) [
    | inl empty ↦ (
      record w { valkey = tick w.valkey },
      drain-nil fuel w (tick w.valkey)
          (rpop-empty services.faults w.valkey (quiet w.valkey.served) empty),
      pop_last-none w.valkey.queue empty,
    )
    | inr ((id, rest), popped) ↦
        let v : Valkey = record (tick w.valkey) { queue = rest } in
        let shorter = pop_last-length w.valkey.queue id rest popped in
        let (kept, payloads) =
          process_one-Untouched services now id (record w { valkey = v }) quiet in
        let (w', drained, empty) =
          drain-empties quiet fuel (process_one services now id (record w { valkey = v }))
            (rw kept (omega (arith, shorter, enough))) in
        (
          w',
          drain-value fuel w id v
                (rpop-some services.faults w.valkey id rest (quiet w.valkey.served) popped)
              ∙ drained,
          empty,
        )
  ]

  -- A step whose read of the payload fails and whose push succeeds puts the session back.
  process_one-requeues :
      (id : String) (w : World S)
      → services.faults w.valkey.served ≡ true
      → services.faults (suc w.valkey.served) ≡ false
      → process_one services now id w ≡ record w {
        valkey = record w.valkey {
          queue = id ∷ w.valkey.queue;
          served = suc (suc w.valkey.served);
        };
      }
  unfolding process_one get_payload process_payload lpush
  process_one-requeues id w unread pushed = rw (unread, pushed)

  -- If every read of a payload fails while the queue itself can be popped and pushed, the loop over
  -- a queue of one session runs out of every fuel: the session that is put back is popped again in
  -- the same cycle. The calls come in threes: pop, read, push.
  pub drain-spins :
      ((n : ℕ) → services.faults (3 * n) ≡ false)
      → ((n : ℕ) → services.faults (suc (3 * n)) ≡ true)
      → ((n : ℕ) → services.faults (suc (suc (3 * n))) ≡ false)
      → (fuel n : ℕ) (id : String) (w : World S) → w.valkey.queue ≡ id ∷ []
      → w.valkey.served ≡ 3 * n
      → drain services now fuel w ≡ none
  drain-spins pops reads pushes zero n id w one at = unfold drain in refl
  drain-spins pops reads pushes (suc fuel) n id w one at =
      let v : Valkey = record (tick w.valkey) { queue = [] } in
      drain-value fuel w id v (
        rpop-some services.faults w.valkey id [] (rw at (pops n))
          (rw one (unfold pop_last in refl)))
      ∙ ap (drain services now fuel)
          (process_one-requeues id (record w { valkey = v }) (rw at (reads n)) (rw at (pushes n)))
      ∙ drain-spins pops reads pushes fuel (suc n) id _ refl (omega (arith, at))
