-- ===== src/ApiKeys/Verdicts.antt =====
-- What a verdict of `Verify` means, and when the key derivation runs.
use eudi_api_management.Base.{
  ℕ, ◌+◌, String, ◌≡◌, refl, sym, subst, ◌∙◌, inl, inr, true, Option, none, some, List, [], ◌∷◌,
  arith, eq_iff, ◌==◌, Bool-cases, Option-cases, some-inj,
}
use eudi_api_management.Base.Results.{Result, ok, err}
use eudi_api_management.Base.Dict.{lookup, lookup-insert, lookup-delete}
use eudi_api_management.ApiKeys.{Derive}
use eudi_api_management.ApiKeys.Phc.{KeyError, Phc, decode_phc}
use eudi_api_management.ApiKeys.Verifier.{
  CacheEntry, Verifier, new_verifier, cache_ttl, entry_matches, cache_lookup, evict_oldest,
  make_room, enlist, cache_store, accepts, verify_cold, verify,
}

-- An entry under a key after a store is the new one, or was there before.
evict_oldest-kept :
    (order : List String) (v : Verifier) (k : String) (e : CacheEntry)
    → lookup k (evict_oldest order v).cache ≡ some e
    → lookup k v.cache ≡ some e
unfolding evict_oldest
evict_oldest-kept [] v k e h = h
evict_oldest-kept (oldest ∷ rest) v k e h = ground (arith, lookup-delete oldest k v.cache)

enlist-kept :
    (o : Option CacheEntry) (key_id : String) (v : Verifier) (k : String) (e : CacheEntry)
    → lookup k (enlist o key_id v).cache ≡ some e
    → lookup k v.cache ≡ some e
unfolding enlist make_room
enlist-kept (some old) key_id v k e h = h
enlist-kept none key_id v k e h = ground (arith, evict_oldest-kept v.order v k e)

entry_matches_inv :
    (e : CacheEntry) (digest : String) (now : ℕ)
    → entry_matches (some e) digest now ≡ true
    → e.secret_hash ≡ digest
unfolding entry_matches
entry_matches_inv e digest now h = ground (arith, eq_iff e.secret_hash digest)

module _ (sum256 : String → String) (derive : Derive) (stored : String → String) where
  -- Some secret with this digest is accepted by the hash stored under the key.
  abbrev pub IsProven : String → String → Type 0
  IsProven k digest =
      (p : Phc) × (s : String) × (decode_phc (stored k) ≡ ok p)
      × (sum256 s ≡ digest)
      × (accepts sum256 derive p s ≡ true)

  abbrev pub IsSound : Verifier → Type 0
  IsSound v = (k : String) (e : CacheEntry) → lookup k v.cache ≡ some e → IsProven k e.secret_hash

  pub new_verifier-IsSound : IsSound new_verifier
  unfolding lookup
  new_verifier-IsSound k e h = cc

  cache_store-IsSound :
      (v : Verifier) (key_id digest : String) (now : ℕ)
      → IsProven key_id digest
      → IsSound v
      → IsSound (cache_store v key_id digest now)
  unfolding cache_store
  cache_store-IsSound v key_id digest now proven sound k e h = elim (Bool-cases (key_id == k)) [
    | inl same ↦
        let new : record { secret_hash = digest; expires_at = now + cache_ttl } ≡ e =
          some-inj (sym (rw (lookup-insert key_id k _ _, same)) ∙ h) in
        subst (λ x. IsProven k x.secret_hash) new
          (subst (λ x. IsProven x digest) ((eq_iff key_id k).0 same) proven)
    | inr other ↦ sound k e (
        enlist-kept (lookup key_id v.cache) key_id v k e
          (rw (lookup-insert key_id k _ _, other) at h))
  ]

  pub hit-IsProven :
      (v : Verifier) (key_id secret : String) (now : ℕ)
      → IsSound v
      → cache_lookup v key_id (sum256 secret) now ≡ true
      → IsProven key_id (sum256 secret)
  unfolding cache_lookup
  hit-IsProven v key_id secret now sound h = elim (Option-cases (lookup key_id v.cache)) [
    | inl absent ↦ cc (rw (absent, cache_lookup) at h)
    | inr (e, there) ↦
        subst (IsProven key_id)
          (entry_matches_inv e (sum256 secret) now (rw (there, cache_lookup) at h))
          (sound key_id e there)
  ]

  -- the cache entries of a verifier stay proven, and so is a positive answer
  cold-IsSound :
      (v : Verifier) (key_id secret : String) (now : ℕ) (r : Result KeyError Phc)
      → decode_phc (stored key_id) ≡ r
      → IsSound v
      → IsSound (verify_cold sum256 derive v key_id r secret now).verifier
        × ((verify_cold sum256 derive v key_id r secret now).answer ≡ ok true
            → IsProven key_id (sum256 secret))
  unfolding verify_cold
  cold-IsSound v key_id secret now (err x) e sound = (sound, λ h. cc)
  cold-IsSound v key_id secret now (ok p) e sound =
      elim (Bool-cases (accepts sum256 derive p secret)) [
        | inl good ↦ rw good (
          cache_store-IsSound v key_id (sum256 secret) now (p, secret, e, refl, good) sound,
          λ _. (p, secret, e, refl, good),
        )
        | inr bad ↦ rw bad (sound, λ h. cc)
      ]

  -- A call with the hash stored under the key keeps every cache entry proven: each is the digest of
  -- a secret that the key's stored hash accepts.
  pub verify-IsSound :
      (v : Verifier) (key_id secret : String) (now : ℕ)
      → IsSound v
      → IsSound (verify sum256 derive v key_id (stored key_id) secret now).verifier
  unfolding verify
  verify-IsSound v key_id secret now sound =
      elim (Bool-cases (cache_lookup v key_id (sum256 secret) now)) [
        | inl hit ↦ rw hit sound
        | inr miss ↦ rw miss (cold-IsSound v key_id secret now _ refl sound).0
      ]

  -- For a verifier whose cached entries are all digests that the stored hashes accept, a call with
  -- the hash stored under the key answers yes, from the cache or not, only if that hash accepts a
  -- secret with the same digest.
  pub verify-true_sound :
      (v : Verifier) (key_id secret : String) (now : ℕ)
      → IsSound v
      → (verify sum256 derive v key_id (stored key_id) secret now).answer ≡ ok true
      → IsProven key_id (sum256 secret)
  unfolding verify
  verify-true_sound v key_id secret now sound h =
      elim (Bool-cases (cache_lookup v key_id (sum256 secret) now)) [
        | inl hit ↦ hit-IsProven v key_id secret now sound hit
        | inr miss ↦ (cold-IsSound v key_id secret now _ refl sound).1 (rw miss at h)
      ]
