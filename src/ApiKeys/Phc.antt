-- ===== src/ApiKeys/Phc.antt =====
-- internal/apikeys/apikeys.go: the argon2id PHC text, and the part of `fmt.Sscanf` that reads it.
use Prim.Native.Char.{code}
use eudi_api_management.Base.{
  ℕ, ◌+◌, ◌-◌, ◌*◌, ◌^◌, String, Bool, true, false, ◌&&◌, ◌||◌, not, Option, none, some, List, [],
  ◌∷◌, nat_eq, leb, ltb, ◌==◌, if◌then◌else◌, length,
}
use eudi_api_management.Base.Results.{Result, ok, err, ◌>>=◌, or_fail}
use eudi_api_management.Text.{append, split, is_space, trim_left}
use eudi_api_management.Text.Encoding.{std_alphabet, encode_base64, decode_base64}

-- ErrFormat, errPHCFormat, and a random source that ends early
pub data KeyError : Type 0 where
  malformed_key malformed_hash : KeyError
  short_read : String → KeyError

pub record Phc : Type 0 where
  pub memory : ℕ
  pub time : ℕ
  pub threads : ℕ
  pub salt : List ℕ
  pub tag : List ℕ

-- the text of the constants argonVersion, argonMemoryKiB, argonTime and argonThreads
unfoldable pub encode_phc : List ℕ → List ℕ → String
encode_phc salt tag =
    append "$argon2id$v=19$m=19456,t=2,p=1$"
      (append (encode_base64 std_alphabet salt) (append "$" (encode_base64 std_alphabet tag)))

-- a literal of a Sscanf format: the text behind it
unfoldable scan_literal : String → String → Option String
scan_literal String.[] s = some s
scan_literal (String.◌∷◌ l ls) String.[] = none
scan_literal (String.◌∷◌ l ls) (String.◌∷◌ c s) =
    let rest = scan_literal ls s in if nat_eq (code l) (code c) then rest else none

abbrev is_digit : ℕ → Bool
is_digit c = leb b'0' c && leb c b'9'

-- decimal digits, with the value so far
unfoldable scan_digits : ℕ → String → ℕ × String
scan_digits n String.[] = (n, String.[])
scan_digits n (String.◌∷◌ c s) = elim (is_digit (code c)) [
  | true ↦ scan_digits (n * 10 + (code c - b'0')) s
  | false ↦ (n, String.◌∷◌ c s)
]

abbrev starts_with_digit : String → Bool
starts_with_digit String.[] = false
starts_with_digit (String.◌∷◌ c s) = is_digit (code c)

-- `%d` into an unsigned variable below `bound`; a line feed is no space to it
unfoldable scan_uint : ℕ → String → Option (ℕ × String)
unfolding scan_digits
scan_uint bound s =
    let t = trim_left (λ c. is_space c && not (nat_eq c 10)) s in
    let (n, rest) = scan_digits 0 t in
    if starts_with_digit t && ltb n bound then some (n, rest) else none

-- the sign that `%d` takes before a signed number: true is minus
abbrev scan_sign : String → Bool × String
scan_sign String.[] = (false, String.[])
scan_sign (String.◌∷◌ c s) =
    if nat_eq (code c) b'-'
    then (true, s)
    else if nat_eq (code c) b'+'
    then (false, s)
    else (false, String.◌∷◌ c s)

-- Whether Sscanf(part, "v=%d") gives the version 19. Text behind the number is not read.
unfoldable pub is_version_19 : String → Bool
unfolding scan_literal scan_digits
is_version_19 part = elim (scan_literal "v=" part) [
  | none ↦ false
  | some s ↦
      let (minus, t) = scan_sign (trim_left (λ c. is_space c && not (nat_eq c 10)) s) in
      let (n, rest) = scan_digits 0 t in not minus && starts_with_digit t && nat_eq n 19
]

-- Sscanf(part, "m=%d,t=%d,p=%d") into two uint32 and a uint8
unfoldable pub scan_params : String → Option (ℕ × ℕ × ℕ)
unfolding scan_literal scan_uint
scan_params part = elim (scan_literal "m=" part) [
  | none ↦ none
  | some s1 ↦ elim (scan_uint (2 ^ 32) s1) [
    | none ↦ none
    | some (mem, s2) ↦ elim (scan_literal ",t=" s2) [
      | none ↦ none
      | some s3 ↦ elim (scan_uint (2 ^ 32) s3) [
        | none ↦ none
        | some (t, s4) ↦ elim (scan_literal ",p=" s4) [
          | none ↦ none
          | some s5 ↦ elim (scan_uint (2 ^ 8) s5) [ none ↦ none | some (p, s6) ↦ some (mem, t, p) ]
        ]
      ]
    ]
  ]
]

abbrev max_decoded_len : ℕ
max_decoded_len = 128

-- len == 0 || len > maxDecodedLen
unfoldable pub is_bad_length : List ℕ → Bool
is_bad_length bs = nat_eq (length bs) 0 || ltb max_decoded_len (length bs)

unfoldable pub decode_parts : List String → Result KeyError Phc
unfolding is_version_19 scan_params decode_base64 is_bad_length
decode_parts (empty ∷ name ∷ version ∷ params ∷ salt_text ∷ tag_text ∷ []) =
    if not (empty == "") || not (name == "argon2id")
    then err malformed_hash
    else if not (is_version_19 version)
    then err malformed_hash
    else do
      (mem, t, p) ← or_fail (scan_params params) malformed_hash
      salt ← or_fail (decode_base64 std_alphabet salt_text) malformed_hash
      tag ← or_fail (decode_base64 std_alphabet tag_text) malformed_hash
      if is_bad_length salt || is_bad_length tag
          then err malformed_hash
          else ok (record { memory = mem; time = t; threads = p; salt = salt; tag = tag })
decode_parts _ = err malformed_hash

unfoldable pub decode_phc : String → Result KeyError Phc
unfolding split decode_parts
decode_phc s = decode_parts (split b'$' s)
