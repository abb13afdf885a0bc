-- ===== src/Webhook/Consumer/Retries.antt =====
-- How often a session is tried again.
use eudi_api_management.Base.{
  ℕ, suc, ◌+◌, ◌<◌, ◌≤◌, String, ◌≡◌, refl, sym, ap, ◌∙◌, ◌⊎◌, inl, inr, false, Option, none, some,
  List, [], ◌∷◌, length, Option-cases, arith, some-inj, subst,
}
use eudi_api_management.Base.Dict.{lookup, lookup-delete_self}
use eudi_api_management.Wire.{Envelope}
use eudi_api_management.Valkey.{Valkey, Counter, Stored, zrem}
use eudi_api_management.Webhook.Consumer.{World, Services, process_one}
use eudi_api_management.Webhook.Consumer.Queue.{process_one-Untouched}
use eudi_api_management.Webhook.Consumer.Counts.{tries, process_one-Counts}

-- One more round of a session that is due: the entry is claimed, and the session is worked on.
abbrev round : {S : Type 0} → Services S → String → ℕ → World S → World S
round services id now w =
    process_one services now id (record w { valkey = (zrem services.faults id w.valkey).1 })

-- Every round of a sequence puts the session back in the schedule.
abbrev pub Retried : {S : Type 0} → Services S → String → List ℕ → World S → Type 0
Retried services id [] w = Unit
Retried services id (now ∷ instants) w =
    ((score : ℕ) × (lookup id (round services id now w).valkey.retries ≡ some score))
    × Retried services id instants (round services id now w)

module _ {S : Type 0} (services : Services S) (id : String)
    (quiet : (n : ℕ) → services.faults n ≡ false) where
  open services use {faults, retrier, codec}

  -- The counter stands at a number of attempts.
  abbrev StandsAt : ℕ → ℕ → Option Counter → Type 0
  StandsAt n expires_at o =
      ((o ≡ none) × (n ≡ 0)) ⊎ (o ≡ some (record { number = n; expires_at = expires_at }))

  zrem-claims :
      (v : Valkey)
      → (lookup id (zrem faults id v).1.retries ≡ none)
        × ((zrem faults id v).1.payloads ≡ v.payloads)
        × ((zrem faults id v).1.attempts ≡ v.attempts)
  unfolding zrem
  zrem-claims v = elim (Option-cases (lookup id v.retries)) [
    | inl absent ↦ rw (quiet v.served, absent) (absent, refl, refl)
    | inr (score, there) ↦ rw (quiet v.served, there) (lookup-delete_self id v.retries, refl, refl)
  ]

  StandsAt-tries :
      (now n expires_at : ℕ) (o : Option Counter)
      → StandsAt n expires_at o
      → now < expires_at
      → tries services now id o ≡ n
  StandsAt-tries now n expires_at o (inl (absent, zero)) alive = rw (absent, zero) refl
  StandsAt-tries now n expires_at o (inr there) alive = rw there (ground arith)

  Retried-bound :
      (p : Stored) (env : Envelope)
      → codec.decode_envelope p.text ≡ some env
      → (instants : List ℕ) (n : ℕ) (w : World S) → lookup id w.valkey.payloads ≡ some p
      → StandsAt n env.expires_at (lookup id w.valkey.attempts)
      → n ≤ retrier.max_attempts
      → Retried services id instants w
      → n + length instants ≤ retrier.max_attempts
  Retried-bound p env decoded [] n w held at low h = omega arith
  Retried-bound p env decoded (now ∷ instants) n w held at low ((score, there), more) =
      let (gone, same_payloads, same_attempts) = zrem-claims w.valkey in
      let claimed : World S = record w { valkey = (zrem faults id w.valkey).1 } in
      let payload = ap (lookup id) same_payloads ∙ held in
      let (env', decoded', retried) =
        process_one-Counts services now id quiet p claimed score payload gone there in
      let (below, alive, counter) = retried in
      let same : env' ≡ env = some-inj (sym decoded' ∙ decoded) in
      let tried : tries services now id (lookup id claimed.valkey.attempts) ≡ n =
        ap (λ a. tries services now id (lookup id a)) same_attempts
        ∙ StandsAt-tries now n env.expires_at (lookup id w.valkey.attempts) at
            (subst (λ e. now < e.expires_at) same alive) in
      let (queue, kept) = process_one-Untouched services now id claimed quiet in
      let counts : lookup id (round services id now w).valkey.attempts
          ≡ some (record { number = suc n; expires_at = env.expires_at }) =
        counter
        ∙ ap (λ m. some (record { number = m; expires_at = env'.expires_at }))
            (omega (arith, tried))
        ∙ ap (λ e. some (record { number = suc n; expires_at = e.expires_at })) same in
      let rest =
        Retried-bound p env decoded instants (suc n) (round services id now w)
          (ap (lookup id) kept ∙ payload) (inr counts) (omega (arith, below, tried)) more in
      omega (arith, rest)

  -- If no call of the cache fails, a session that was never retried is put back in the schedule at most
  -- `max_attempts` times, whatever the instants of its rounds, the webhook and the session store: in
  -- any longer sequence of rounds, some round delivers it, fails it for good or lets it go.
  pub retries-bounded :
      (p : Stored) (env : Envelope) (instants : List ℕ) (w : World S)
      → codec.decode_envelope p.text ≡ some env
      → lookup id w.valkey.payloads ≡ some p
      → lookup id w.valkey.attempts ≡ none
      → Retried services id instants w
      → length instants ≤ retrier.max_attempts
  retries-bounded p env instants w decoded held fresh h =
      omega
        (arith, Retried-bound p env decoded instants 0 w held (inl (fresh, refl)) (omega arith) h)
