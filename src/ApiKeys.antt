-- ===== src/ApiKeys.antt =====
-- internal/apikeys/apikeys.go: minting and parsing of API keys. argon2 and the random source are
-- arguments; the random source is the list of the bytes that it will deliver.
pub mod Uncached
pub mod Phc
pub mod PhcRoundtrip
pub mod KeyFormat
pub mod Verifier
pub mod Cache
pub mod Verdicts
pub mod Derivation
use eudi_api_management.Base.{
  ℕ, zero, suc, ◌+◌, ◌<◌, String, ◌≡◌, refl, Bool, true, false, ◌&&◌, ◌||◌, not, Option, none, some,
  List, [], ◌∷◌, arith, nat_eq, leb, ◌==◌, if◌then◌else◌,
}
use eudi_api_management.Base.Results.{Result, ok, err, ◌>>=◌, or_fail}
use eudi_api_management.Text.{text_length, contains_rune, all_runes, split_n, append}
use eudi_api_management.Text.Encoding.{
  crockford_alphabet, url_alphabet, encode_base32, encode_base64,
}
use Phc.{KeyError, malformed_key, short_read, encode_phc}

abbrev prefix_len : ℕ
prefix_len = 8

abbrev secret_len : ℕ
secret_len = 32

-- isCrockford
unfoldable pub is_crockford : String → Bool
is_crockford = all_runes (contains_rune crockford_alphabet)

-- one character of isBase64URL
abbrev pub is_base64url_rune : ℕ → Bool
is_base64url_rune c =
    leb b'A' c && leb c b'Z'
    || leb b'a' c && leb c b'z'
    || leb b'0' c && leb c b'9'
    || nat_eq c b'-'
    || nat_eq c b'_'

unfoldable pub is_base64url : String → Bool
is_base64url = all_runes is_base64url_rune

-- The tests on the three parts. A text with characters outside ASCII has more bytes than
-- characters, and fails the second test of its pair.
unfoldable pub check_parts : List String → Result KeyError (String × String)
unfolding is_crockford is_base64url
check_parts (scheme ∷ prefix ∷ secret ∷ []) =
    if not (scheme == "vk")
    then err malformed_key
    else if not (nat_eq (text_length prefix) prefix_len) || not (is_crockford prefix)
    then err malformed_key
    else if not (nat_eq (text_length secret) secret_len) || not (is_base64url secret)
    then err malformed_key
    else ok (prefix, secret)
check_parts _ = err malformed_key

-- Parse: strings.SplitN(presented, "_", 3), then the tests
unfoldable pub parse : String → Result KeyError (String × String)
unfolding check_parts split_n
parse presented = check_parts (split_n 2 b'_' presented)

-- io.ReadFull of `n` bytes: the bytes, and what the source has left
unfoldable pub read_full : ℕ → List ℕ → Option (List ℕ × List ℕ)
read_full zero r = some ([], r)
read_full (suc n) [] = none
read_full (suc n) (b ∷ r) = elim (read_full n r) [
  | none ↦ none
  | some (bs, rest) ↦ some (b ∷ bs, rest)
]

-- argon2.IDKey of secret, salt, time, memory, threads and tag length
abbrev pub Derive : Type 0
Derive = String → List ℕ → ℕ → ℕ → ℕ → ℕ → List ℕ

pub record Minted : Type 0 where
  pub display_key : String
  pub prefix : String
  pub phc_hash : String

-- keyScheme + "_" + prefix + "_" + secret
unfoldable pub display : String → String → String
display prefix secret = append "vk_" (append prefix (append "_" secret))

unfoldable pub mint : Derive → List ℕ → Result KeyError Minted
unfolding read_full encode_base32 encode_base64 encode_phc display
mint derive r = do
  (prefix_raw, r1) ← or_fail (read_full 5 r) (short_read "prefix")
  let prefix = encode_base32 crockford_alphabet prefix_raw
  (secret_raw, r2) ← or_fail (read_full 24 r1) (short_read "secret")
  let secret = encode_base64 url_alphabet secret_raw
  (salt, r3) ← or_fail (read_full 16 r2) (short_read "salt")
  let tag = derive secret salt 2 19456 1 32
  ok (record {
    display_key = display prefix secret;
    prefix = prefix;
    phc_hash = encode_phc salt tag;
  })
