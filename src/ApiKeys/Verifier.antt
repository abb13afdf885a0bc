-- ===== src/ApiKeys/Verifier.antt =====
-- internal/apikeys/apikeys.go: `Verifier` and its cache of successful verdicts. sha256 and argon2
-- are arguments, `now` is the instant of the call in nanoseconds. A call also says whether it
-- ran the key derivation. The mutex makes each cache access one step.
use eudi_api_management.Base.{
  ℕ, ◌+◌, String, Bool, true, false, ◌&&◌, Option, none, some, List, [], ◌∷◌, ◌++◌, nat_eq, ltb,
  leb, ◌==◌, if◌then◌else◌, length,
}
use eudi_api_management.Base.Results.{Result, ok, err}
use eudi_api_management.Base.Dict.{Dict, lookup, insert, delete}
use eudi_api_management.ApiKeys.{Derive}
use eudi_api_management.ApiKeys.Phc.{KeyError, Phc, decode_phc}

-- 5 minutes
abbrev pub cache_ttl : ℕ
cache_ttl = 300_000_000_000

abbrev cache_cap : ℕ
cache_cap = 1024

pub record CacheEntry : Type 0 where
  pub secret_hash : String
  pub expires_at : ℕ

-- `order` is the insertion order, oldest first.
pub record Verifier : Type 0 where
  pub cache : Dict CacheEntry
  pub order : List String

abbrev pub new_verifier : Verifier
new_verifier = record { cache = []; order = [] }

-- subtle.ConstantTimeCompare(a, b) == 1
unfoldable pub bytes_equal : List ℕ → List ℕ → Bool
bytes_equal [] [] = true
bytes_equal (a ∷ as') (b ∷ bs) = nat_eq a b && bytes_equal as' bs
bytes_equal _ _ = false

unfoldable pub entry_matches : Option CacheEntry → String → ℕ → Bool
entry_matches none secret_hash now = false
entry_matches (some e) secret_hash now =
    if ltb e.expires_at now then false else e.secret_hash == secret_hash

unfoldable pub cache_lookup : Verifier → String → String → ℕ → Bool
unfolding entry_matches
cache_lookup v key_id secret_hash now = entry_matches (lookup key_id v.cache) secret_hash now

-- the oldest entry goes when the cache is full
unfoldable pub evict_oldest : List String → Verifier → Verifier
evict_oldest [] v = v
evict_oldest (oldest ∷ rest) v = record { cache = delete oldest v.cache; order = rest }

unfoldable pub make_room : Verifier → Verifier
unfolding evict_oldest
make_room v = if leb cache_cap (length v.order) then evict_oldest v.order v else v

unfoldable pub enlist : Option CacheEntry → String → Verifier → Verifier
unfolding make_room
enlist (some e) key_id v = v
enlist none key_id v = record (make_room v) { order = (make_room v).order ++ key_id ∷ [] }

unfoldable pub cache_store : Verifier → String → String → ℕ → Verifier
unfolding enlist
cache_store v key_id secret_hash now =
    let w = enlist (lookup key_id v.cache) key_id v in
    record w {
      cache =
          insert key_id (record { secret_hash = secret_hash; expires_at = now + cache_ttl })
            w.cache;
    }

pub record Verdict : Type 0 where
  pub answer : Result KeyError Bool
  pub verifier : Verifier
  pub derived : Bool

module _ (sum256 : String → String) (derive : Derive) where
  -- the comparison of a fresh derivation with the stored tag
  unfoldable pub accepts : Phc → String → Bool
  unfolding bytes_equal
  accepts p secret =
      bytes_equal (derive secret p.salt p.time p.memory p.threads (length p.tag)) p.tag

  -- the part of `Verify` after a cache miss
  unfoldable pub verify_cold : Verifier → String → Result KeyError Phc → String → ℕ → Verdict
  unfolding accepts cache_store
  verify_cold v key_id (err e) secret now = record { answer = err e; verifier = v; derived = false }
  verify_cold v key_id (ok p) secret now =
      if accepts p secret
      then record {
        answer = ok true;
        verifier = cache_store v key_id (sum256 secret) now;
        derived = true;
      }
      else record { answer = ok false; verifier = v; derived = true }

  unfoldable pub verify : Verifier → String → String → String → ℕ → Verdict
  unfolding cache_lookup verify_cold
  verify v key_id phc_hash secret now =
      if cache_lookup v key_id (sum256 secret) now
      then record { answer = ok true; verifier = v; derived = false }
      else verify_cold v key_id (decode_phc phc_hash) secret now
