-- ===== src/Text/Padded.antt =====
-- base64.StdEncoding: encoding/base64 with padding, as internal/registrydb/repo.go decodes with it.
use Prim.Native.Char.{code}
use eudi_api_management.Base.{
  ℕ, String, ◌==◌, ◌||◌, Bool, Option, none, List, nat_eq, if◌then◌else◌,
}
use eudi_api_management.Text.Encoding.{std_alphabet, decode_base64}

abbrev is_line_break : ℕ → Bool
is_line_break c = nat_eq c 10 || nat_eq c 13

-- the text without line feeds and carriage returns, which the decoder skips
unfoldable without_breaks : String → String
without_breaks String.[] = String.[]
without_breaks (String.◌∷◌ c s) =
    let rest = without_breaks s in if is_line_break (code c) then rest else String.◌∷◌ c rest

-- the part before the first '=', and what follows from there
unfoldable split_padding : String → String × String
split_padding String.[] = (String.[], String.[])
split_padding (String.◌∷◌ c s) =
    let rest = split_padding s in
    if nat_eq (code c) b'=' then (String.[], String.◌∷◌ c s) else (String.◌∷◌ c rest.0, rest.1)

-- the padding that a number of digits needs, by its rest modulo 4
unfoldable padding_of : String → String
padding_of (String.◌∷◌ _ (String.◌∷◌ _ (String.◌∷◌ _ (String.◌∷◌ _ s)))) = padding_of s
padding_of (String.◌∷◌ _ (String.◌∷◌ _ (String.◌∷◌ _ String.[]))) = "="
padding_of (String.◌∷◌ _ (String.◌∷◌ _ String.[])) = "=="
padding_of _ = ""

-- StdEncoding.DecodeString
unfoldable pub decode_std : String → Option (List ℕ)
unfolding without_breaks split_padding padding_of
decode_std s =
    let parts = split_padding (without_breaks s) in
    if parts.1 == padding_of parts.0 then decode_base64 std_alphabet parts.0 else none
