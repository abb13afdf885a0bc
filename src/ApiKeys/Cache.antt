-- ===== src/ApiKeys/Cache.antt =====
-- What the verified-key cache holds, and what a verdict means.
use eudi_api_management.Base.{
  ℕ, ◌+◌, ◌≤◌, ◌<◌, String, ◌≡◌, refl, inl, inr, Option, none, some, List, [], ◌∷◌, ◌++◌, arith,
  eq_iff, leb, ◌==◌, if◌then◌else◌, length, length-append, count, count-append, Bool-cases,
  Option-cases,
}
use eudi_api_management.Base.Results.{Result, ok, err}
use eudi_api_management.Base.Dict.{lookup, insert, lookup-insert, lookup-delete}
use eudi_api_management.ApiKeys.{Derive}
use eudi_api_management.ApiKeys.Phc.{KeyError, Phc, decode_phc}
use eudi_api_management.ApiKeys.Verifier.{
  CacheEntry, Verifier, new_verifier, cache_lookup, evict_oldest, make_room, cache_store, accepts,
  verify_cold, verify,
}

abbrev indicator : Option CacheEntry → ℕ
indicator none = 0
indicator (some e) = 1

-- The insertion order lists each cached key once and no other, and is at most `cache_cap` long.
pub record IsConsistent (v : Verifier) : Type 0 where
  pub bounded : length v.order ≤ 1024
  pub listed : (k : String) → count k v.order ≡ indicator (lookup k v.cache)

pub IsConsistent-new : IsConsistent new_verifier
unfolding lookup
IsConsistent-new = record { bounded = omega arith; listed = λ k. refl }

evict_oldest-listed :
    (order : List String) (v : Verifier)
    → v.order ≡ order
    → ((k : String) → count k order ≡ indicator (lookup k v.cache))
    → (k : String)
    → count k (evict_oldest order v).order ≡ indicator (lookup k (evict_oldest order v).cache)
unfolding evict_oldest
evict_oldest-listed [] v e h k = rw e (h k)
evict_oldest-listed (oldest ∷ rest) v e h k =
    ground (arith, h k, lookup-delete oldest k v.cache, eq_iff oldest k)

length-evict_oldest :
    (order : List String) (v : Verifier)
    → v.order ≡ order
    → 1024 ≤ length order
    → length (evict_oldest order v).order + 1 ≡ length order
unfolding evict_oldest
length-evict_oldest [] v e h = absurd (omega arith)
length-evict_oldest (oldest ∷ rest) v e h = omega arith

make_room-listed :
    (v : Verifier)
    → IsConsistent v
    → (k : String) → count k (make_room v).order ≡ indicator (lookup k (make_room v).cache)
unfolding make_room
make_room-listed v c k = elim (Bool-cases (leb 1024 (length v.order))) [
  | inl full ↦ rw full (evict_oldest-listed v.order v refl c.listed k)
  | inr room ↦ rw room (c.listed k)
]

length-make_room : (v : Verifier) → IsConsistent v → length (make_room v).order < 1024
unfolding make_room
length-make_room v c = elim (Bool-cases (leb 1024 (length v.order))) [
  | inl full ↦ rw full (ground (arith, length-evict_oldest v.order v refl, c.bounded))
  | inr room ↦ rw room (ground arith)
]

evict_oldest-absent :
    (order : List String) (v : Verifier) (k : String)
    → lookup k v.cache ≡ none
    → lookup k (evict_oldest order v).cache ≡ none
unfolding evict_oldest
evict_oldest-absent [] v k e = e
evict_oldest-absent (oldest ∷ rest) v k e = ground (arith, lookup-delete oldest k v.cache)

make_room-absent :
    (v : Verifier) (k : String) → lookup k v.cache ≡ none → lookup k (make_room v).cache ≡ none
unfolding make_room
make_room-absent v k e = elim (Bool-cases (leb 1024 (length v.order))) [
  | inl full ↦ rw full (evict_oldest-absent v.order v k e)
  | inr room ↦ rw room e
]

stored-IsConsistent :
    (key_id : String) (e : CacheEntry) (v : Verifier)
    → length v.order ≤ 1024
    → ((k : String) → count k v.order ≡ (if key_id == k then 1 else indicator (lookup k v.cache)))
    → IsConsistent (record v { cache = insert key_id e v.cache })
stored-IsConsistent key_id e v bounded listed = record {
  bounded = bounded;
  listed = λ k. ground (arith, listed k, lookup-insert key_id k e v.cache);
}

cache_store-IsConsistent :
    (v : Verifier) (key_id secret_hash : String) (now : ℕ)
    → IsConsistent v
    → IsConsistent (cache_store v key_id secret_hash now)
unfolding cache_store
cache_store-IsConsistent v key_id secret_hash now c = elim (Option-cases (lookup key_id v.cache)) [
  | inl fresh ↦
      rw (fresh, cache_store)
        (stored-IsConsistent key_id _
          (record (make_room v) { order = (make_room v).order ++ key_id ∷ [] })
          (omega (arith, length-append (make_room v).order (key_id ∷ []), length-make_room v c))
          (λ k. ground (
            arith,
            count-append k (make_room v).order (key_id ∷ []),
            make_room-listed v c k,
            make_room-absent v key_id fresh,
            eq_iff key_id k,
          )))
  | inr (old, known) ↦
      rw (known, cache_store)
        (stored-IsConsistent key_id _ v c.bounded
          (λ k. ground (arith, c.listed k, known, eq_iff key_id k)))
]

module _ (sum256 : String → String) (derive : Derive) where
  verify_cold-IsConsistent :
      (v : Verifier) (key_id : String) (r : Result KeyError Phc) (secret : String) (now : ℕ)
      → IsConsistent v
      → IsConsistent (verify_cold sum256 derive v key_id r secret now).verifier
  unfolding verify_cold
  verify_cold-IsConsistent v key_id (err e) secret now c = c
  verify_cold-IsConsistent v key_id (ok p) secret now c =
      elim (Bool-cases (accepts sum256 derive p secret)) [
        | inl good ↦ rw good (cache_store-IsConsistent v key_id (sum256 secret) now c)
        | inr bad ↦ rw bad c
      ]

  -- From a consistent cache, every call of `Verify` keeps the cache within its capacity, with an
  -- insertion order that lists each cached key exactly once and nothing else.
  pub verify-IsConsistent :
      (v : Verifier) (key_id phc_hash secret : String) (now : ℕ)
      → IsConsistent v
      → IsConsistent (verify sum256 derive v key_id phc_hash secret now).verifier
  unfolding verify
  verify-IsConsistent v key_id phc_hash secret now c =
      elim (Bool-cases (cache_lookup v key_id (sum256 secret) now)) [
        | inl hit ↦ rw hit c
        | inr miss ↦ rw miss (verify_cold-IsConsistent v key_id (decode_phc phc_hash) secret now c)
      ]
