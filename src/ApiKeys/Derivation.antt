-- ===== src/ApiKeys/Derivation.antt =====
-- When `Verify` runs the key derivation, and what it answers for a minted key.
use eudi_api_management.Base.{
  ℕ, ◌+◌, ◌≤◌, String, ◌≡◌, refl, ap, ◌∙◌, inl, inr, true, false, some, List, [], ◌∷◌, arith,
  eq_refl, length, Bool-cases, All,
}
use eudi_api_management.Base.Results.{Result, ok, err}
use eudi_api_management.Base.Dict.{lookup, lookup-insert_self}
use eudi_api_management.Text.Encoding.{IsByte}
use eudi_api_management.ApiKeys.{Derive, Minted, parse, mint}
use eudi_api_management.ApiKeys.Phc.{KeyError, Phc, decode_phc}
use eudi_api_management.ApiKeys.PhcRoundtrip.{decode-encode_phc}
use eudi_api_management.ApiKeys.KeyFormat.{parse-mint}
use eudi_api_management.ApiKeys.Verifier.{
  Verifier, cache_ttl, bytes_equal, entry_matches, cache_lookup, cache_store, accepts, verify_cold,
  verify,
}

lookup-cache_store :
    (v : Verifier) (key_id secret_hash : String) (now : ℕ)
    → lookup key_id (cache_store v key_id secret_hash now).cache
      ≡ some (record { secret_hash = secret_hash; expires_at = now + cache_ttl })
unfolding cache_store
lookup-cache_store v key_id secret_hash now = lookup-insert_self key_id _ _

bytes_equal_self : (bs : List ℕ) → bytes_equal bs bs ≡ true
unfolding bytes_equal
bytes_equal_self [] = refl
bytes_equal_self (b ∷ bs) = ground (arith, bytes_equal_self bs)

module _ (sum256 : String → String) (derive : Derive) where
  cold-false :
      (v : Verifier) (key_id : String) (r : Result KeyError Phc) (secret : String) (now : ℕ)
      → (verify_cold sum256 derive v key_id r secret now).answer ≡ ok false
      → ((verify_cold sum256 derive v key_id r secret now).derived ≡ true)
        × ((verify_cold sum256 derive v key_id r secret now).verifier ≡ v)
  unfolding verify_cold
  cold-false v key_id (err e) secret now h = cc
  cold-false v key_id (ok p) secret now h = elim (Bool-cases (accepts sum256 derive p secret)) [
    | inl good ↦ cc (rw good at h)
    | inr bad ↦ rw bad (refl, refl)
  ]

  cold-true :
      (v : Verifier) (key_id : String) (r : Result KeyError Phc) (secret : String) (now : ℕ)
      → (verify_cold sum256 derive v key_id r secret now).answer ≡ ok true
      → (verify_cold sum256 derive v key_id r secret now).verifier
        ≡ cache_store v key_id (sum256 secret) now
  unfolding verify_cold
  cold-true v key_id (err e) secret now h = cc
  cold-true v key_id (ok p) secret now h = elim (Bool-cases (accepts sum256 derive p secret)) [
    | inl good ↦ rw good
    | inr bad ↦ cc (rw bad at h)
  ]

  derived-true :
      (v : Verifier) (key_id phc_hash secret : String) (now : ℕ)
      → (verify sum256 derive v key_id phc_hash secret now).answer ≡ ok true
      → (verify sum256 derive v key_id phc_hash secret now).derived ≡ true
      → (verify sum256 derive v key_id phc_hash secret now).verifier
        ≡ cache_store v key_id (sum256 secret) now
  unfolding verify
  derived-true v key_id phc_hash secret now h d =
      elim (Bool-cases (cache_lookup v key_id (sum256 secret) now)) [
        | inl hit ↦ cc (rw hit at d)
        | inr miss ↦ rw miss (cold-true v key_id (decode_phc phc_hash) secret now (rw miss at h))
      ]

  hit_after_store :
      (v : Verifier) (key_id digest : String) (now later : ℕ)
      → later ≤ now + cache_ttl
      → cache_lookup (cache_store v key_id digest now) key_id digest later ≡ true
  unfolding cache_lookup
  hit_after_store v key_id digest now later within =
      rw (lookup-cache_store v key_id digest now)
        (unfold entry_matches in ground (arith, eq_refl digest))

  verify-hit :
      (v : Verifier) (key_id phc_hash secret : String) (now : ℕ)
      → cache_lookup v key_id (sum256 secret) now ≡ true
      → ((verify sum256 derive v key_id phc_hash secret now).answer ≡ ok true)
        × ((verify sum256 derive v key_id phc_hash secret now).derived ≡ false)
  unfolding verify
  verify-hit v key_id phc_hash secret now hit = rw hit (refl, refl)

  -- A negative answer always comes from a fresh derivation, and leaves the cache as it was: no
  -- failure is cached or served from the cache.
  verify-false_derives :
      (v : Verifier) (key_id phc_hash secret : String) (now : ℕ)
      → (verify sum256 derive v key_id phc_hash secret now).answer ≡ ok false
      → ((verify sum256 derive v key_id phc_hash secret now).derived ≡ true)
        × ((verify sum256 derive v key_id phc_hash secret now).verifier ≡ v)
  unfolding verify
  verify-false_derives v key_id phc_hash secret now h =
      elim (Bool-cases (cache_lookup v key_id (sum256 secret) now)) [
        | inl hit ↦ cc (rw hit at h)
        | inr miss ↦ rw miss (cold-false v key_id (decode_phc phc_hash) secret now (rw miss at h))
      ]

  -- After a call that accepts a secret by a derivation, the next call with the same key and
  -- secret, while the cache entry lives, answers yes without a derivation, whatever hash it is
  -- given.
  verify_again :
      (v : Verifier) (key_id phc_hash secret other : String) (now later : ℕ)
      → (verify sum256 derive v key_id phc_hash secret now).answer ≡ ok true
      → (verify sum256 derive v key_id phc_hash secret now).derived ≡ true
      → later ≤ now + cache_ttl
      → let again =
          verify sum256 derive
            (verify sum256 derive v key_id phc_hash secret now).verifier
            key_id
            other
            secret
            later in
        (again.answer ≡ ok true) × (again.derived ≡ false)
  verify_again v key_id phc_hash secret other now later h d within =
      rw (derived-true v key_id phc_hash secret now h d) (
        verify-hit _ key_id other secret later
          (hit_after_store v key_id (sum256 secret) now later within))

  accepted_answers :
      (v : Verifier) (key_id phc_hash secret : String) (now : ℕ) (p : Phc)
      → decode_phc phc_hash ≡ ok p
      → accepts sum256 derive p secret ≡ true
      → (verify sum256 derive v key_id phc_hash secret now).answer ≡ ok true
  unfolding verify
  accepted_answers v key_id phc_hash secret now p e good =
      elim (Bool-cases (cache_lookup v key_id (sum256 secret) now)) [
        | inl hit ↦ rw hit
        | inr miss ↦ rw (miss, e) (unfold verify_cold in rw good)
      ]

  accepts_own_tag :
      (secret : String) (salt : List ℕ)
      → length (derive secret salt 2 19456 1 32) ≡ 32
      → accepts sum256 derive
          (record {
            memory = 19456;
            time = 2;
            threads = 1;
            salt = salt;
            tag = derive secret salt 2 19456 1 32;
          })
          secret
        ≡ true
  unfolding accepts
  accepts_own_tag secret salt len = rw len (bytes_equal_self (derive secret salt 2 19456 1 32))

  -- Whatever the cache, the stored hash of a key minted from a source of bytes answers yes to the
  -- secret that the key's text parses to, where the derivation yields as many bytes as it is asked
  -- for.
  pub mint-verify :
      (r : List ℕ) (m : Minted) (v : Verifier) (key_id : String) (now : ℕ)
      → mint derive r ≡ ok m
      → All IsByte r
      → ((s : String) (salt : List ℕ) → length (derive s salt 2 19456 1 32) ≡ 32)
      → ((s : String) (salt : List ℕ) → All IsByte (derive s salt 2 19456 1 32))
      → (secret : String) × (parse m.display_key ≡ ok (m.prefix, secret))
        × ((verify sum256 derive v key_id m.phc_hash secret now).answer ≡ ok true)
  mint-verify r m v key_id now e bytes len tags =
      let (secret, salt, parsed, hash, salt_len, salt_bytes) = parse-mint derive r m e bytes in
      let decoded =
        decode-encode_phc salt (derive secret salt 2 19456 1 32) salt_bytes (tags secret salt)
          (omega arith) (omega arith) (omega (arith, len secret salt))
          (omega (arith, len secret salt)) in
      (
        secret,
        parsed,
        accepted_answers v key_id m.phc_hash secret now _ (ap decode_phc hash ∙ decoded)
            (accepts_own_tag secret salt (len secret salt)),
      )
