-- ===== src/ApiKeys/Uncached.antt =====
-- The cached verifier against one that has no cache.
use eudi_api_management.Base.{
  ℕ, String, ◌≡◌, refl, sym, inl, inr, Bool, true, List, [], ◌∷◌, Bool-cases,
}
use eudi_api_management.Base.Results.{Result, ok, err}
use eudi_api_management.Base.Simulation.{trace}
use eudi_api_management.ApiKeys.{Derive}
use eudi_api_management.ApiKeys.Phc.{KeyError, Phc, decode_phc}
use eudi_api_management.ApiKeys.Verifier.{
  Verifier, new_verifier, cache_lookup, accepts, verify_cold, verify,
}
use eudi_api_management.ApiKeys.Verdicts.{
  IsProven, IsSound, hit-IsProven, verify-IsSound, new_verifier-IsSound,
}

-- A request to verify a secret for a key at an instant.
pub record Attempt : Type 0 where
  pub key_id : String
  pub secret : String
  pub now : ℕ

module _ (sum256 : String → String) (derive : Derive) (stored : String → String) where
  abbrev judged : Result KeyError Phc → String → Result KeyError Bool
  judged (err e) secret = err e
  judged (ok p) secret = ok (accepts sum256 derive p secret)

  -- the verdict of the stored hash alone
  abbrev pub reference : Attempt → Result KeyError Bool
  reference a = judged (decode_phc (stored a.key_id)) a.secret

  abbrev pub references : List Attempt → List (Result KeyError Bool)
  references [] = []
  references (a ∷ attempts) = reference a ∷ references attempts

  abbrev pub attempt : Attempt → Verifier → Result KeyError Bool × Verifier
  attempt a v =
      let verdict = verify sum256 derive v a.key_id (stored a.key_id) a.secret a.now in
      (verdict.answer, verdict.verifier)

  cold-judged :
      (v : Verifier) (key_id secret : String) (now : ℕ) (r : Result KeyError Phc)
      → (verify_cold sum256 derive v key_id r secret now).answer ≡ judged r secret
  unfolding verify_cold
  cold-judged v key_id secret now (err e) = refl
  cold-judged v key_id secret now (ok p) = elim (Bool-cases (accepts sum256 derive p secret)) [
    | inl good ↦ rw good refl
    | inr bad ↦ rw bad refl
  ]

  module _ (collision_free : (s t : String) → sum256 s ≡ sum256 t → s ≡ t) where
    proven-judged :
        (a : Attempt)
        → IsProven sum256 derive stored a.key_id (sum256 a.secret)
        → reference a ≡ ok true
    proven-judged a (p, s, decoded, same, good) =
        rw (reference, decoded, ← collision_free s a.secret same, good) refl

    attempt-reference :
        (a : Attempt) (v : Verifier)
        → IsSound sum256 derive stored v
        → (attempt a v).0 ≡ reference a
    unfolding verify
    attempt-reference a v sound =
        elim (Bool-cases (cache_lookup v a.key_id (sum256 a.secret) a.now)) [
          | inl hit ↦
              rw (attempt, hit)
                (sym (
                  proven-judged a
                    (hit-IsProven sum256 derive stored v a.key_id a.secret a.now sound hit)))
          | inr miss ↦
              rw (attempt, miss)
                (cold-judged v a.key_id a.secret a.now (decode_phc (stored a.key_id)))
        ]

    trace-references :
        (attempts : List Attempt) (v : Verifier)
        → IsSound sum256 derive stored v
        → (trace attempt attempts v).0 ≡ references attempts
    unfolding trace
    trace-references [] v sound = refl
    trace-references (a ∷ attempts) v sound =
        rw
          (
            attempt-reference a v sound,
            trace-references attempts (attempt a v).1
                (verify-IsSound sum256 derive stored v a.key_id a.secret a.now sound),
          )
          refl

    -- Where SHA-256 has no collisions and every key keeps its stored hash, the cache cannot be told
    -- from the answers: a new verifier answers any sequence of attempts, at any instants, as a
    -- verifier that derives every time, malformed hashes included.
    pub verify-uncached :
        (attempts : List Attempt) → (trace attempt attempts new_verifier).0 ≡ references attempts
    verify-uncached attempts =
        trace-references attempts new_verifier (new_verifier-IsSound sum256 derive stored)
