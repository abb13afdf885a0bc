-- ===== src/Text/Alphabets.antt =====
-- Which characters the encodings write.
use Prim.Native.Char.{code}
use eudi_api_management.Base.{
  ℕ, zero, suc, ◌+◌, ◌*◌, ◌/◌, ◌%◌, ◌<◌, String, ◌≡◌, refl, Bool, true, not, List, [], ◌∷◌, arith,
  nat_eq, All, length,
}
use eudi_api_management.Text.{text_length, all_runes, rune_at}
use eudi_api_management.Text.Split.{is_free_of}
use eudi_api_management.Text.Encoding.{
  IsByte, crockford_alphabet, std_alphabet, encode_base32, encode_base64, all_below,
  all_below_sound,
}

-- What a test answers for every digit's character it answers for every character of an encoding.
module _ (alphabet : String) (p : ℕ → Bool) where
  abbrev pub accepts : ℕ → Bool
  accepts d = p (code (rune_at alphabet d))

  module _ (table : all_below 64 accepts ≡ true) where
    digit-accepted : (d : ℕ) → d < 64 → p (code (rune_at alphabet d)) ≡ true
    digit-accepted d h = all_below_sound 64 accepts d table h

    pub all_runes-encode :
        (bs : List ℕ) → All IsByte bs → all_runes p (encode_base64 alphabet bs) ≡ true
    unfolding encode_base64
    all_runes-encode [] h = refl
    all_runes-encode (a ∷ []) h =
        ground
          (arith, digit-accepted (a / 4) (omega arith), digit-accepted (a % 4 * 16) (omega arith))
    all_runes-encode (a ∷ b ∷ []) h = ground (
      arith,
      digit-accepted (a / 4) (omega arith),
      digit-accepted (a % 4 * 16 + b / 16) (omega arith),
      digit-accepted (b % 16 * 4) (omega arith),
    )
    all_runes-encode (a ∷ b ∷ c ∷ rest) h = ground (
      arith,
      digit-accepted (a / 4) (omega arith),
      digit-accepted (a % 4 * 16 + b / 16) (omega arith),
      digit-accepted (b % 16 * 4 + c / 64) (omega arith),
      digit-accepted (c % 64) (omega arith),
      all_runes-encode rest h.1.1.1,
    )

pub text_length-encode :
    (alphabet : String) (k : ℕ) (bs : List ℕ)
    → length bs ≡ 3 * k
    → text_length (encode_base64 alphabet bs) ≡ 4 * k
unfolding encode_base64
text_length-encode alphabet zero [] h = refl
text_length-encode alphabet (suc k) (a ∷ b ∷ c ∷ rest) h =
    omega (arith, text_length-encode alphabet k rest (omega arith))
text_length-encode alphabet k bs h = absurd (omega arith)

pub std_free_of_dollar :
    (bs : List ℕ) → All IsByte bs → is_free_of b'$' (encode_base64 std_alphabet bs) ≡ true
unfolding all_below
std_free_of_dollar = all_runes-encode std_alphabet (λ c. not (nat_eq c b'$')) refl

-- One block of Crockford's base32: eight characters of the alphabet.
pub encode_base32-runes :
    (p : ℕ → Bool) (a b c d e : ℕ)
    → all_below 32 (accepts crockford_alphabet p) ≡ true
    → All IsByte (a ∷ b ∷ c ∷ d ∷ e ∷ [])
    → all_runes p (encode_base32 crockford_alphabet (a ∷ b ∷ c ∷ d ∷ e ∷ [])) ≡ true
unfolding encode_base32
encode_base32-runes p a b c d e table h =
    let digit =
      λ (x : ℕ) (lt : x < 32). all_below_sound 32 (accepts crockford_alphabet p) x table lt in
    ground (
      arith,
      digit (a / 8) (omega arith),
      digit (a % 8 * 4 + b / 64) (omega arith),
      digit (b / 2 % 32) (omega arith),
      digit (b % 2 * 16 + c / 16) (omega arith),
      digit (c % 16 * 2 + d / 128) (omega arith),
      digit (d / 4 % 32) (omega arith),
      digit (d % 4 * 8 + e / 32) (omega arith),
      digit (e % 32) (omega arith),
    )
