-- ===== src/Examples/Keys.antt =====
-- API keys: minting and the verifier's cache.
use eudi_api_management.Base.{
  ℕ, zero, suc, String, ◌≡◌, refl, true, false, List, [], ◌∷◌, arith, All,
}
use eudi_api_management.Base.Results.{ok}
use eudi_api_management.Base.Dict.{lookup}
use eudi_api_management.ApiKeys.{Derive, Minted, parse, mint}
use eudi_api_management.ApiKeys.Phc.{decode_phc}
use eudi_api_management.ApiKeys.Verifier.{new_verifier, verify}
use eudi_api_management.ApiKeys.Cache.{IsConsistent, IsConsistent-new, verify-IsConsistent}
use eudi_api_management.ApiKeys.Verdicts.{IsProven, IsSound, verify-true_sound}
use eudi_api_management.ApiKeys.Derivation.{mint-verify}
use eudi_api_management.ApiKeys.Uncached.{Attempt, attempt, references, verify-uncached}
use eudi_api_management.Base.Simulation.{trace}
use eudi_api_management.Base.{◌==◌, if◌then◌else◌}
use eudi_api_management.Text.Encoding.{IsByte}

-- a derivation that gives as many zero bytes as asked for
abbrev pub zeros : ℕ → List ℕ
zeros zero = []
zeros (suc n) = 0 ∷ zeros n

abbrev pub derive : Derive
derive secret salt time memory threads n = zeros n

abbrev pub digest : String → String
digest s = s

abbrev random : List ℕ
random = zeros 45

random_bytes : All IsByte random
random_bytes = ground arith

abbrev pub minted : Minted
minted = record {
  display_key = "vk_00000000_AAAAAAAAAAAAAAAAAAAAAAAAAAAAAAAA";
  prefix = "00000000";
  phc_hash =
      "$argon2id$v=19$m=19456,t=2,p=1$AAAAAAAAAAAAAAAAAAAAAA$AAAAAAAAAAAAAAAAAAAAAAAAAAAAAAAAAAAAAAAAAAA";
}

minted_from_zeros : mint derive random ≡ ok minted
unfolding mint
minted_from_zeros = refl

zero_bytes : (s : String) (salt : List ℕ) → All IsByte (derive s salt 2 19456 1 32)
zero_bytes s salt = ground arith

mint-verify_example :
    (secret : String) × (parse minted.display_key ≡ ok (minted.prefix, secret))
    × ((verify digest derive new_verifier "k1" minted.phc_hash secret 10).answer ≡ ok true)
mint-verify_example =
    mint-verify digest derive random minted new_verifier "k1" 10 minted_from_zeros random_bytes
      (λ s salt. refl) zero_bytes

verify-IsConsistent_example :
    IsConsistent (verify digest derive new_verifier "k1" minted.phc_hash "secret" 10).verifier
verify-IsConsistent_example =
    verify-IsConsistent digest derive new_verifier "k1" minted.phc_hash "secret" 10 IsConsistent-new

abbrev stored : String → String
stored key_id = minted.phc_hash

empty_IsSound : IsSound digest derive stored new_verifier
unfolding lookup
empty_IsSound k e h = cc

accepted : (verify digest derive new_verifier "k1" minted.phc_hash "secret" 10).answer ≡ ok true
unfolding verify lookup decode_phc eudi_api_management.Text.trim_left
    eudi_api_management.Text.is_space
accepted = refl

verify-true_sound_example : IsProven digest derive stored "k1" "secret"
verify-true_sound_example =
    verify-true_sound digest derive stored new_verifier "k1" "secret" 10 empty_IsSound accepted

derived_first : (verify digest derive new_verifier "k1" minted.phc_hash "secret" 10).derived ≡ true
unfolding verify lookup decode_phc eudi_api_management.Text.trim_left
    eudi_api_management.Text.is_space
derived_first = refl

-- a derivation whose bytes are all one
abbrev ones : ℕ → List ℕ
ones zero = []
ones (suc n) = 1 ∷ ones n

abbrev derive_ones : Derive
derive_ones secret salt time memory threads n = ones n

rejected :
    (verify digest derive_ones new_verifier "k1" minted.phc_hash "secret" 10).answer ≡ ok false
unfolding verify lookup decode_phc eudi_api_management.Text.trim_left
    eudi_api_management.Text.is_space
rejected = refl

-- one attempt for a key whose hash is malformed, and two for a minted one
abbrev attempts : List Attempt
attempts =
    record { key_id = "k0"; secret = "a"; now = 1 }
    ∷ record { key_id = "k1"; secret = "a"; now = 2 }
    ∷ record { key_id = "k1"; secret = "a"; now = 3 }
    ∷ []

abbrev hash_of : String → String
hash_of k = if k == "k1" then minted.phc_hash else "nonsense"

verify-uncached_example :
    (trace (attempt digest derive hash_of) attempts new_verifier).0
    ≡ references digest derive hash_of attempts
verify-uncached_example = verify-uncached digest derive hash_of (λ s t same. same) attempts
