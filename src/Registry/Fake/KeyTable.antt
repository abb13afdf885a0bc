-- ===== src/Registry/Fake/KeyTable.antt =====
-- API keys of the registry: what a new prefix resolves to, and revocation.
use eudi_api_management.Base.{
  String, ◌≡◌, refl, ap, ◌∙◌, inl, inr, true, false, none, some, ◌==◌, eq_iff, Bool-cases,
  Option-cases,
}
use eudi_api_management.Base.Results.{ok, err, ok-inj}
use eudi_api_management.Base.Dict.{lookup, lookup-insert_self}
use eudi_api_management.Errors.{Error, Kit}
use eudi_api_management.Registry.{ApiKeyRecord}
use eudi_api_management.Registry.Fake.{
  Fake, next_id, status_of, with_status, get_client_by_key_prefix, create_api_key, revoke_api_key,
}

module _ (kit : Kit) where
  resolves-of :
      (f : Fake) (prefix key_id : String) (k : ApiKeyRecord)
      → lookup prefix f.keys_by_prefix ≡ some key_id
      → lookup key_id f.api_keys ≡ some k
      → get_client_by_key_prefix kit f prefix ≡ ok (with_status kit f k)
  unfolding get_client_by_key_prefix
  resolves-of f prefix key_id k indexed there = rw (get_client_by_key_prefix, indexed, there)

  -- both outcomes of the operation, with what holds after each
  create_api_key-outcome :
      (client_id prefix secret_hash : String) (f : Fake)
      → ((id : String)
          → (create_api_key kit client_id prefix secret_hash f).0 ≡ ok id
          → (lookup prefix f.keys_by_prefix ≡ none)
            × (get_client_by_key_prefix kit
                  (create_api_key kit client_id prefix secret_hash f).1
                  prefix
                ≡ ok (record {
                  key_id = id;
                  client_id = client_id;
                  secret_hash = secret_hash;
                  status = status_of (lookup client_id f.clients);
                  revoked = false;
                })))
        × ((e : Error)
            → (create_api_key kit client_id prefix secret_hash f).0 ≡ err e
            → (create_api_key kit client_id prefix secret_hash f).1 ≡ f)
  unfolding create_api_key next_id
  create_api_key-outcome client_id prefix secret_hash f =
      elim (Option-cases (lookup prefix f.keys_by_prefix)) [
        | inr (taken, there) ↦ rw (there, create_api_key) (λ id h. cc, λ e h. refl)
        | inl free ↦
            rw (free, create_api_key)
              (
                λ id h. (
                  refl,
                  resolves-of _ prefix _ _ (lookup-insert_self prefix _ f.keys_by_prefix)
                        (lookup-insert_self _ _ f.api_keys)
                      ∙ ap
                          (λ x. ok (record {
                            key_id = x;
                            client_id = client_id;
                            secret_hash = secret_hash;
                            status = status_of (lookup client_id f.clients);
                            revoked = false;
                          }))
                          (ok-inj h),
                ),
                λ e h. cc,
              )
      ]

  -- both outcomes of the operation, with what holds after each
  revoke_api_key-outcome :
      (client_id key_id : String) (f : Fake)
      → ((revoke_api_key kit client_id key_id f).0 ≡ ok tt
          → ((k : ApiKeyRecord) × (lookup key_id f.api_keys ≡ some k) × (k.client_id ≡ client_id))
            × ((prefix : String)
                → lookup prefix f.keys_by_prefix ≡ some key_id
                → (rec : ApiKeyRecord) × (get_client_by_key_prefix kit
                      (revoke_api_key kit client_id key_id f).1
                      prefix
                    ≡ ok rec)
                  × (rec.revoked ≡ true)))
        × ((e : Error)
            → (revoke_api_key kit client_id key_id f).0 ≡ err e
            → (revoke_api_key kit client_id key_id f).1 ≡ f)
  unfolding revoke_api_key
  revoke_api_key-outcome client_id key_id f = elim (Option-cases (lookup key_id f.api_keys)) [
    | inl missing ↦ rw (missing, revoke_api_key) (λ h. cc, λ e h. refl)
    | inr (k, there) ↦ elim (Bool-cases (k.client_id == client_id)) [
      | inr other ↦ rw (there, revoke_api_key, other) (λ h. cc, λ e h. refl)
      | inl mine ↦
          rw (there, revoke_api_key, mine)
            (
              λ h. (
                (k, refl, (eq_iff _ _).0 mine),
                λ prefix indexed. (
                  with_status kit f (record k { revoked = true }),
                  resolves-of _ prefix key_id (record k { revoked = true }) indexed
                      (lookup-insert_self key_id _ f.api_keys),
                  refl,
                ),
              ),
              λ e h. cc,
            )
    ]
  ]

  -- A key is created only under a prefix that no key has. The prefix then resolves to the new key,
  -- with the client, the hash and the client's status, not revoked.
  create_api_key-ok :
      (client_id prefix secret_hash : String) (f : Fake) (id : String)
      → (create_api_key kit client_id prefix secret_hash f).0 ≡ ok id
      → (lookup prefix f.keys_by_prefix ≡ none)
        × (get_client_by_key_prefix kit (create_api_key kit client_id prefix secret_hash f).1 prefix
            ≡ ok (record {
              key_id = id;
              client_id = client_id;
              secret_hash = secret_hash;
              status = status_of (lookup client_id f.clients);
              revoked = false;
            }))
  create_api_key-ok client_id prefix secret_hash f id h =
      (create_api_key-outcome client_id prefix secret_hash f).0 id h

  -- Only its owner revokes a key, and a prefix of the key then resolves to a revoked record.
  pub revoke_api_key-ok :
      (client_id key_id : String) (f : Fake) (prefix : String)
      → (revoke_api_key kit client_id key_id f).0 ≡ ok tt
      → lookup prefix f.keys_by_prefix ≡ some key_id
      → ((k : ApiKeyRecord) × (lookup key_id f.api_keys ≡ some k) × (k.client_id ≡ client_id))
        × ((rec : ApiKeyRecord) × (get_client_by_key_prefix kit
                (revoke_api_key kit client_id key_id f).1
                prefix
              ≡ ok rec)
            × (rec.revoked ≡ true))
  revoke_api_key-ok client_id key_id f prefix h indexed =
      let (owned, resolved) = (revoke_api_key-outcome client_id key_id f).0 h in
      (owned, resolved prefix indexed)
