-- ===== src/Routes/Auth/Boundary.antt =====
-- Whom the API-key boundary lets through, and what it says to the others.
use eudi_api_management.Base.{
  ℕ, String, ◌≡◌, ◌≢◌, refl, sym, ◌∙◌, ap, ◌⊎◌, inl, inr, Bool, true, false, Option, none, some,
  eq_iff, arith, ◌==◌, Bool-cases,
}
use eudi_api_management.Base.Results.{Result, ok, err, Result-cases, ok-inj}
use eudi_api_management.Base.Dict.{lookup}
use eudi_api_management.Errors.{Error, new_problem, Kit, is_not_found_error, unauthorized}
use eudi_api_management.Registry.{ApiKeyRecord, Reads}
use eudi_api_management.ApiKeys.{Derive, parse}
use eudi_api_management.ApiKeys.Phc.{KeyError, Phc, decode_phc}
use eudi_api_management.ApiKeys.Verifier.{
  Verifier, verify, verify_cold, cache_lookup, entry_matches, accepts,
}
use eudi_api_management.Routes.Auth.{Attempt, Dummy, resolve, admit, api_key_auth}

abbrev not_registered : Error
not_registered = new_problem "err:client:notRegistered"

admit-ok :
    (found : Option ApiKeyRecord) (answer : Result KeyError Bool) (client_id : String)
    → admit found answer ≡ ok client_id
    → (rec : ApiKeyRecord) × (found ≡ some rec)
      × (answer ≡ ok true)
      × (rec.revoked ≡ false)
      × (rec.status ≡ "active")
      × (rec.client_id ≡ client_id)
unfolding admit
admit-ok found (err e) client_id h = cc
admit-ok found (ok false) client_id h = cc
admit-ok none (ok true) client_id h = cc
admit-ok (some rec) (ok true) client_id h = elim (Bool-cases rec.revoked) [
  | inl revoked ↦ cc (rw revoked at h)
  | inr valid ↦ elim (Bool-cases (rec.status == "active")) [
    | inl active ↦ (rec, refl, refl, valid, (eq_iff _ _).0 active, ok-inj (rw (valid, active) at h))
    | inr idle ↦ cc (rw (valid, idle) at h)
  ]
]

admit-err :
    (found : Option ApiKeyRecord) (answer : Result KeyError Bool) (e : Error)
    → admit found answer ≡ err e
    → (e ≡ unauthorized)
      ⊎ ((rec : ApiKeyRecord) × (found ≡ some rec)
          × (answer ≡ ok true)
          × (rec.revoked ≡ false)
          × (rec.status ≢ "active")
          × (e ≡ not_registered))
unfolding admit
admit-err found (err x) e h = inl (cc)
admit-err found (ok false) e h = inl (cc)
admit-err none (ok true) e h = inl (cc)
admit-err (some rec) (ok true) e h = elim (Bool-cases rec.revoked) [
  | inl revoked ↦ inl (cc (rw revoked at h))
  | inr valid ↦ elim (Bool-cases (rec.status == "active")) [
    | inl active ↦ cc (rw (valid, active) at h)
    | inr idle ↦ inr (
      rec,
      refl,
      refl,
      valid,
      λ same. ground (arith, (eq_iff rec.status "active").1 same),
      cc (rw (valid, idle) at h),
    )
  ]
]

module _ (kit : Kit) (registry : Reads) (dummy : Dummy) (presented : String) where
  -- where an attempt with a record comes from
  resolve-found :
      (a : Attempt) (rec : ApiKeyRecord)
      → resolve kit registry dummy presented ≡ ok a
      → a.found ≡ some rec
      → (prefix : String) × (parse presented ≡ ok (prefix, a.secret))
        × (registry.get_client_by_key_prefix prefix ≡ ok rec)
        × (a.key_id ≡ rec.key_id)
        × (a.phc_hash ≡ rec.secret_hash)
  unfolding resolve
  resolve-found a rec h there = elim (Result-cases (parse presented)) [
    | inr (e, bad) ↦ cc (rw bad at h, there)
    | inl ((prefix, secret), good) ↦
        elim (Result-cases (registry.get_client_by_key_prefix prefix)) [
          | inl (r, known) ↦
              let same = ok-inj (rw (good, known) at h) in
              let which : r ≡ rec = cc in
              (
                prefix,
                good ∙ ap (λ x. ok (prefix, x)) (ap (λ x. x.secret) same),
                known ∙ ap ok which,
                sym (ap (λ x. x.key_id) same) ∙ ap (λ x. x.key_id) which,
                sym (ap (λ x. x.phc_hash) same) ∙ ap (λ x. x.secret_hash) which,
              )
          | inr (e, failure) ↦ elim (Bool-cases (is_not_found_error kit e)) [
            | inl unknown_prefix ↦ cc (rw (good, failure, unknown_prefix) at h, there)
            | inr broken ↦ cc (rw (good, failure, broken) at h)
          ]
        ]
  ]

  -- where an attempt without one leads: the dummy pair
  resolve-unknown :
      (a : Attempt)
      → resolve kit registry dummy presented ≡ ok a
      → a.found ≡ none
      → (a.key_id ≡ dummy.key_id) × (a.phc_hash ≡ dummy.phc_hash)
  unfolding resolve
  resolve-unknown a h missing = elim (Result-cases (parse presented)) [
    | inr (e, bad) ↦
        let same = ok-inj (rw bad at h) in
        (sym (ap (λ x. x.key_id) same), sym (ap (λ x. x.phc_hash) same))
    | inl ((prefix, secret), good) ↦
        elim (Result-cases (registry.get_client_by_key_prefix prefix)) [
          | inl (r, known) ↦ cc (rw (good, known) at h, missing)
          | inr (e, failure) ↦ elim (Bool-cases (is_not_found_error kit e)) [
            | inl unknown_prefix ↦
                let same = ok-inj (rw (good, failure, unknown_prefix) at h) in
                (sym (ap (λ x. x.key_id) same), sym (ap (λ x. x.phc_hash) same))
            | inr broken ↦ cc (rw (good, failure, broken) at h)
          ]
        ]
  ]

  -- an infrastructure error of the registry
  resolve-err :
      (e : Error)
      → resolve kit registry dummy presented ≡ err e
      → (prefix : String) × (registry.get_client_by_key_prefix prefix ≡ err e)
        × (is_not_found_error kit e ≡ false)
  unfolding resolve
  resolve-err e h = elim (Result-cases (parse presented)) [
    | inr (x, bad) ↦ cc (rw bad at h)
    | inl ((prefix, secret), good) ↦
        elim (Result-cases (registry.get_client_by_key_prefix prefix)) [
          | inl (r, known) ↦ cc (rw (good, known) at h)
          | inr (x, failure) ↦ elim (Bool-cases (is_not_found_error kit x)) [
            | inl unknown_prefix ↦ cc (rw (good, failure, unknown_prefix) at h)
            | inr broken ↦
                let same : x ≡ e = cc (rw (good, failure, broken) at h) in
                (prefix, failure ∙ ap err same, ap (is_not_found_error kit) (sym same) ∙ broken)
          ]
        ]
  ]

module _ (sum256 : String → String) (derive : Derive) (kit : Kit) (dummy : Dummy) (registry : Reads)
    (v : Verifier) (presented : String) (now : ℕ) where
  -- A client id is let through only for a key of the right form whose prefix has a record in the
  -- registry with that client id, for a client that is active, not revoked, and whose stored hash
  -- `Verify` accepts the presented secret against.
  pub api_key_auth-ok :
      (client_id : String)
      → (api_key_auth sum256 derive kit dummy registry v presented now).client ≡ ok client_id
      → (prefix : String) × (secret : String) × (rec : ApiKeyRecord) × (parse presented
          ≡ ok (prefix, secret))
        × (registry.get_client_by_key_prefix prefix ≡ ok rec)
        × ((verify sum256 derive v rec.key_id rec.secret_hash secret now).answer ≡ ok true)
        × (rec.revoked ≡ false)
        × (rec.status ≡ "active")
        × (rec.client_id ≡ client_id)
  unfolding api_key_auth
  api_key_auth-ok client_id h = elim (Result-cases (resolve kit registry dummy presented)) [
    | inr (e, failure) ↦ cc (rw failure at h)
    | inl (a, resolved) ↦
        let (rec, found, accepted, valid, active, owner) =
          admit-ok a.found _ client_id (rw resolved at h) in
        let (prefix, parsed, known, same_id, same_hash) =
          resolve-found kit registry dummy presented a rec resolved found in
        (
          prefix,
          a.secret,
          rec,
          parsed,
          known,
          rw (← same_id, ← same_hash) accepted,
          valid,
          active,
          owner,
        )
  ]

  -- A refusal is the 401 body, or one of two others. `err:client:notRegistered` is answered only to a
  -- caller whose key has the right form and a record that is not revoked, whose secret `Verify`
  -- accepts, and whose client is not active. Any other error is the one of a registry lookup that
  -- failed with something else than not found.
  pub api_key_auth-err :
      (e : Error)
      → (api_key_auth sum256 derive kit dummy registry v presented now).client ≡ err e
      → (e ≡ unauthorized)
        ⊎ ((prefix : String) × (secret : String) × (rec : ApiKeyRecord) × (parse presented
              ≡ ok (prefix, secret))
            × (registry.get_client_by_key_prefix prefix ≡ ok rec)
            × ((verify sum256 derive v rec.key_id rec.secret_hash secret now).answer ≡ ok true)
            × (rec.revoked ≡ false)
            × (rec.status ≢ "active")
            × (e ≡ not_registered))
        ⊎ ((prefix : String) × (registry.get_client_by_key_prefix prefix ≡ err e)
            × (is_not_found_error kit e ≡ false))
  unfolding api_key_auth
  api_key_auth-err e h = elim (Result-cases (resolve kit registry dummy presented)) [
    | inr (x, failure) ↦
        let same : x ≡ e = cc (rw failure at h) in
        inr (inr (resolve-err kit registry dummy presented e (failure ∙ ap err same)))
    | inl (a, resolved) ↦ elim (admit-err a.found _ e (rw resolved at h)) [
      | inl uniform ↦ inl uniform
      | inr (rec, found, accepted, valid, idle, which) ↦
          let (prefix, parsed, known, same_id, same_hash) =
            resolve-found kit registry dummy presented a rec resolved found in
          inr (
            inl (
              prefix,
              a.secret,
              rec,
              parsed,
              known,
              rw (← same_id, ← same_hash) accepted,
              valid,
              idle,
              which,
            ))
    ]
  ]

  -- A key that is malformed or whose prefix is unknown is refused with the 401 body after a full
  -- key derivation against the dummy hash, if that hash decodes and no verdict about the dummy key
  -- is cached.
  pub unknown_key-derives :
      (a : Attempt) (p : Phc)
      → resolve kit registry dummy presented ≡ ok a
      → a.found ≡ none
      → decode_phc dummy.phc_hash ≡ ok p
      → lookup dummy.key_id v.cache ≡ none
      → ((api_key_auth sum256 derive kit dummy registry v presented now).client ≡ err unauthorized)
        × ((api_key_auth sum256 derive kit dummy registry v presented now).derived ≡ true)
  unfolding api_key_auth verify cache_lookup entry_matches verify_cold admit
  unknown_key-derives a p resolved missing decodes uncached =
      let (same_id, same_hash) = resolve-unknown kit registry dummy presented a resolved missing in
      elim (Bool-cases (accepts sum256 derive p a.secret)) [
        | inl good ↦
            rw (resolved, same_id, same_hash, uncached, decodes, good, missing) (refl, refl)
        | inr bad ↦ rw (resolved, same_id, same_hash, uncached, decodes, bad) (refl, refl)
      ]
