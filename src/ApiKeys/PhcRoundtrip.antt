-- ===== src/ApiKeys/PhcRoundtrip.antt =====
-- The stored hash reads back: `decodePHC` after `encodePHC`.
use eudi_api_management.Base.{
  ℕ, ◌≤◌, ◌<◌, ◌≡◌, refl, true, false, ◌∙◌, ap, some, List, [], ◌∷◌, arith, All, length,
}
use eudi_api_management.Base.Results.{ok}
use eudi_api_management.Text.{split, trim_left, is_space}
use eudi_api_management.Text.Split.{split-join, split-free}
use eudi_api_management.Text.Encoding.{IsByte, std_alphabet, encode_base64, decode-encode_std}
use eudi_api_management.Text.Alphabets.{std_free_of_dollar}
use eudi_api_management.ApiKeys.Phc.{
  encode_phc, is_version_19, scan_params, is_bad_length, decode_parts, decode_phc,
}

split-encode_phc :
    (salt tag : List ℕ)
    → All IsByte salt
    → All IsByte tag
    → split b'$' (encode_phc salt tag)
      ≡ ""
        ∷ "argon2id"
        ∷ "v=19"
        ∷ "m=19456,t=2,p=1"
        ∷ encode_base64 std_alphabet salt
        ∷ encode_base64 std_alphabet tag
        ∷ []
unfolding encode_phc split
split-encode_phc salt tag hs ht =
    ap (λ l. "" ∷ "argon2id" ∷ "v=19" ∷ "m=19456,t=2,p=1" ∷ l)
      (split-join b'$' "$" refl (encode_base64 std_alphabet salt) (encode_base64 std_alphabet tag)
          (std_free_of_dollar salt hs)
        ∙ ap (λ l. encode_base64 std_alphabet salt ∷ l)
            (split-free b'$' (encode_base64 std_alphabet tag) (std_free_of_dollar tag ht)))

fixed_version : is_version_19 "v=19" ≡ true
unfolding is_version_19 trim_left is_space
fixed_version = refl

fixed_params : scan_params "m=19456,t=2,p=1" ≡ some (19456, 2, 1)
unfolding scan_params trim_left is_space
fixed_params = refl

good_length : (bs : List ℕ) → 0 < length bs → length bs ≤ 128 → is_bad_length bs ≡ false
unfolding is_bad_length
good_length bs lo hi = ground arith

-- A hash written for a salt and a tag of 1 to 128 bytes is read back with the salt, the tag and the
-- parameters that it was minted with.
pub decode-encode_phc :
    (salt tag : List ℕ)
    → All IsByte salt
    → All IsByte tag
    → 0 < length salt
    → length salt ≤ 128
    → 0 < length tag
    → length tag ≤ 128
    → decode_phc (encode_phc salt tag)
      ≡ ok (record { memory = 19456; time = 2; threads = 1; salt = salt; tag = tag })
unfolding decode_phc
decode-encode_phc salt tag hs ht s0 s1 t0 t1 = rw (
  split-encode_phc salt tag hs ht,
  decode_parts,
  fixed_version,
  fixed_params,
  decode-encode_std salt hs,
  decode-encode_std tag ht,
  good_length salt s0 s1,
  good_length tag t0 t1,
)
