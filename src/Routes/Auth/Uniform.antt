-- ===== src/Routes/Auth/Uniform.antt =====
-- The cost of a key that no client has.
use eudi_api_management.Base.{ℕ, String, ◌≡◌, true, none, List, arith, length, All}
use eudi_api_management.Base.Results.{ok, err}
use eudi_api_management.Base.Dict.{lookup}
use eudi_api_management.Text.Encoding.{IsByte}
use eudi_api_management.Errors.{Kit, unauthorized}
use eudi_api_management.Registry.{Reads}
use eudi_api_management.ApiKeys.{Derive}
use eudi_api_management.ApiKeys.PhcRoundtrip.{decode-encode_phc}
use eudi_api_management.ApiKeys.Verifier.{Verifier}
use eudi_api_management.Routes.Auth.{Attempt, dummy_of, resolve, api_key_auth}
use eudi_api_management.Routes.Auth.Boundary.{unknown_key-derives}

module _ (sum256 : String → String) (derive : Derive) (kit : Kit) (salt : List ℕ) (registry : Reads)
    (v : Verifier) (presented : String) (now : ℕ) where
  -- A key that is malformed or whose prefix is unknown is refused with the 401 body after a full key
  -- derivation against the dummy hash, if no verdict about the dummy key is cached, the salt has 16
  -- bytes and the derivation yields the bytes it is asked for.
  pub unknown_key-refused :
      (a : Attempt)
      → resolve kit registry (dummy_of derive salt) presented ≡ ok a
      → a.found ≡ none
      → lookup "apikeys:dummy" v.cache ≡ none
      → All IsByte salt
      → length salt ≡ 16
      → ((s : String) → length (derive s salt 2 19456 1 32) ≡ 32)
      → ((s : String) → All IsByte (derive s salt 2 19456 1 32))
      → ((api_key_auth sum256 derive kit (dummy_of derive salt) registry v presented now).client
          ≡ err unauthorized)
        × ((api_key_auth sum256 derive kit (dummy_of derive salt) registry v presented now).derived
            ≡ true)
  unfolding dummy_of
  unknown_key-refused a resolved missing uncached salt_bytes salt_length tag_length tag_bytes =
      let secret : String = "apikeys: fixed dummy secret v1 — never a real key" in
      unknown_key-derives sum256 derive kit (dummy_of derive salt) registry v presented now a _
        resolved missing
        (decode-encode_phc salt (derive secret salt 2 19456 1 32) salt_bytes (tag_bytes secret)
          (omega arith) (omega arith) (omega (arith, tag_length secret))
          (omega (arith, tag_length secret)))
        uncached
