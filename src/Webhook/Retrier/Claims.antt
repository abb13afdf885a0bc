-- ===== src/Webhook/Retrier/Claims.antt =====
-- `Due`: the claims of several replicas, and what a failed claim does to those made before it.
use eudi_api_management.Base.{
  ℕ, suc, ◌+◌, String, ◌≡◌, refl, inl, inr, Bool, true, false, ◌&&◌, Option, none, some, List, [],
  ◌∷◌, ◌++◌, arith, eq_iff, eq_refl, if◌then◌else◌, count, contains, count-append, Option-cases,
}
use eudi_api_management.Base.Dict.{lookup, delete, lookup-delete}
use eudi_api_management.Results.{value, failed}
use eudi_api_management.Valkey.{Valkey, Faults, zrem}
use eudi_api_management.Webhook.Retrier.{claim_loop}

abbrev pub is_member : Option ℕ → Bool
is_member none = false
is_member (some score) = true

module _ (faults : Faults) (quiet : (n : ℕ) → faults n ≡ false) where
  zrem_absent :
      (id : String) (v : Valkey)
      → lookup id v.retries ≡ none
      → zrem faults id v ≡ (value 0, record v { served = suc v.served })
  unfolding zrem
  zrem_absent id v absent = rw (quiet v.served, absent)

  zrem_there :
      (id : String) (v : Valkey) (score : ℕ)
      → lookup id v.retries ≡ some score
      → zrem faults id v
        ≡ (value 1, record v { retries = delete id v.retries; served = suc v.served })
  unfolding zrem
  zrem_there id v score there = rw (quiet v.served, there)

  -- With no failing call the claims over a list of members give each member that is scheduled, once,
  -- and take exactly the listed members off the schedule.
  pub claim_loop-lem :
      (ids claimed : List String) (v : Valkey)
      → (out : List String) × (w : Valkey) × (claim_loop faults ids claimed v ≡ (value out, w))
        × ((k : String)
            → count k out
              ≡ count k claimed
                + (if contains k ids && is_member (lookup k v.retries) then 1 else 0))
        × ((k : String)
            → lookup k w.retries ≡ (if contains k ids then none else lookup k v.retries))
        × (w.queue ≡ v.queue)
  unfolding claim_loop
  claim_loop-lem [] claimed v = (claimed, v, refl, (λ k. omega arith), (λ k. refl), refl)
  claim_loop-lem (id ∷ ids) claimed v = elim (Option-cases (lookup id v.retries)) [
    | inl absent ↦
        let (out, w, run, counts, left, queue) =
          claim_loop-lem ids claimed (record v { served = suc v.served }) in
        (
          out,
          w,
          rw (claim_loop, zrem_absent id v absent, zrem_absent id v absent) run,
          λ k. ground (arith, counts k, absent, eq_iff id k),
          λ k. ground (arith, left k, absent, eq_iff id k),
          queue,
        )
    | inr (score, there) ↦
        let (out, w, run, counts, left, queue) =
          claim_loop-lem ids (claimed ++ id ∷ [])
            (record v { retries = delete id v.retries; served = suc v.served }) in
        (
          out,
          w,
          rw (claim_loop, zrem_there id v score there, zrem_there id v score there) run,
          λ k. ground (
            arith,
            counts k,
            there,
            eq_iff id k,
            lookup-delete id k v.retries,
            count-append k claimed (id ∷ []),
          ),
          λ k. ground (arith, left k, eq_iff id k, lookup-delete id k v.retries),
          queue,
        )
  ]

-- If the claim of a session that is scheduled succeeds and the claim after it fails, the error
-- gives no session at all, although the first session is off the schedule and the queue is as it
-- was.
pub claim_loop-drops :
    (faults : Faults) (id next : String) (ids : List String) (v : Valkey) (score : ℕ)
    → lookup id v.retries ≡ some score
    → faults v.served ≡ false
    → faults (suc v.served) ≡ true
    → ((claim_loop faults (id ∷ next ∷ ids) [] v).0 ≡ failed)
      × (lookup id (claim_loop faults (id ∷ next ∷ ids) [] v).1.retries ≡ none)
      × ((claim_loop faults (id ∷ next ∷ ids) [] v).1.queue ≡ v.queue)
unfolding claim_loop
claim_loop-drops faults id next ids v score there first second =
    rw
      (
        claim_loop, served_first, served_first, claim_loop, refused_second, served_first,
        refused_second,
      )
      (refl, rw (lookup-delete id id v.retries, eq_refl id), refl)
  where
    served_first :
        zrem faults id v
        ≡ (value 1, record v { retries = delete id v.retries; served = suc v.served })
    served_first = unfold zrem in rw (first, there)

    refused_second :
        zrem faults next (record v { retries = delete id v.retries; served = suc v.served })
        ≡ (failed, record v { retries = delete id v.retries; served = suc (suc v.served) })
    refused_second = unfold zrem in rw second
