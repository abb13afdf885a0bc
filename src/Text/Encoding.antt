-- ===== src/Text/Encoding.antt =====
-- encoding/base32 and encoding/base64 without padding, as internal/apikeys/apikeys.go uses them. A
-- byte is a number below 256.
use Prim.Native.Char.{Char, code}
use eudi_api_management.Base.{
  ℕ, zero, suc, ◌+◌, ◌*◌, ◌/◌, ◌%◌, ◌<◌, String, ◌≡◌, refl, Bool, true, false, ◌&&◌, ◌||◌, not,
  Option, none, some, List, [], ◌∷◌, arith, nat_eq, if◌then◌else◌, All,
}
use eudi_api_management.Text.{rune_at, position}

abbrev pub crockford_alphabet : String
crockford_alphabet = "0123456789ABCDEFGHJKMNPQRSTVWXYZ"

abbrev pub std_alphabet : String
std_alphabet = "ABCDEFGHIJKLMNOPQRSTUVWXYZabcdefghijklmnopqrstuvwxyz0123456789+/"

abbrev pub url_alphabet : String
url_alphabet = "ABCDEFGHIJKLMNOPQRSTUVWXYZabcdefghijklmnopqrstuvwxyz0123456789-_"

abbrev pub IsByte : ℕ → Type 0
IsByte b = b < 256

infixr 67 ◌∷ₛ◌
abbrev ◌∷ₛ◌ : Char → String → String
c ∷ₛ s = String.◌∷◌ c s

-- Whole blocks of five bytes, eight characters each; the program encodes exactly one block.
unfoldable pub encode_base32 : String → List ℕ → String
encode_base32 alphabet (a ∷ b ∷ c ∷ d ∷ e ∷ rest) =
    rune_at alphabet (a / 8)
    ∷ₛ rune_at alphabet (a % 8 * 4 + b / 64)
    ∷ₛ rune_at alphabet (b / 2 % 32)
    ∷ₛ rune_at alphabet (b % 2 * 16 + c / 16)
    ∷ₛ rune_at alphabet (c % 16 * 2 + d / 128)
    ∷ₛ rune_at alphabet (d / 4 % 32)
    ∷ₛ rune_at alphabet (d % 4 * 8 + e / 32)
    ∷ₛ rune_at alphabet (e % 32)
    ∷ₛ encode_base32 alphabet rest
encode_base32 alphabet _ = String.[]

unfoldable pub encode_base64 : String → List ℕ → String
encode_base64 alphabet (a ∷ b ∷ c ∷ rest) =
    rune_at alphabet (a / 4)
    ∷ₛ rune_at alphabet (a % 4 * 16 + b / 16)
    ∷ₛ rune_at alphabet (b % 16 * 4 + c / 64)
    ∷ₛ rune_at alphabet (c % 64)
    ∷ₛ encode_base64 alphabet rest
encode_base64 alphabet (a ∷ b ∷ []) =
    rune_at alphabet (a / 4)
    ∷ₛ rune_at alphabet (a % 4 * 16 + b / 16)
    ∷ₛ rune_at alphabet (b % 16 * 4)
    ∷ₛ String.[]
encode_base64 alphabet (a ∷ []) =
    rune_at alphabet (a / 4) ∷ₛ rune_at alphabet (a % 4 * 16) ∷ₛ String.[]
encode_base64 alphabet [] = String.[]

-- The digits of a text; the decoder skips line feeds and carriage returns.
unfoldable digits_base64 : String → String → Option (List ℕ)
digits_base64 alphabet String.[] = some []
digits_base64 alphabet (String.◌∷◌ c s) =
    let rest = digits_base64 alphabet s in
    if nat_eq (code c) 10 || nat_eq (code c) 13 then rest else elim (position alphabet (code c)) [
      | none ↦ none
      | some d ↦ elim rest [ none ↦ none | some ds ↦ some (d ∷ ds) ]
    ]

-- Four digits are three bytes; a rest of three or two digits is two bytes or one.
unfoldable decode_digits : List ℕ → Option (List ℕ)
decode_digits (p ∷ q ∷ r ∷ s ∷ rest) = elim (decode_digits rest) [
  | none ↦ none
  | some bs ↦ some ((p * 4 + q / 16) ∷ (q % 16 * 16 + r / 4) ∷ (r % 4 * 64 + s) ∷ bs)
]
decode_digits (p ∷ q ∷ r ∷ []) = some ((p * 4 + q / 16) ∷ (q % 16 * 16 + r / 4) ∷ [])
decode_digits (p ∷ q ∷ []) = some ((p * 4 + q / 16) ∷ [])
decode_digits (p ∷ []) = none
decode_digits [] = some []

unfoldable pub decode_base64 : String → String → Option (List ℕ)
unfolding digits_base64 decode_digits
decode_base64 alphabet s = elim (digits_base64 alphabet s) [
  | none ↦ none
  | some ds ↦ decode_digits ds
]

unfoldable pub all_below : ℕ → (ℕ → Bool) → Bool
all_below zero test = true
all_below (suc bound) test = test bound && all_below bound test

pub all_below_sound :
    (bound : ℕ) (test : ℕ → Bool) (b : ℕ) → all_below bound test ≡ true → b < bound → test b ≡ true
unfolding all_below
all_below_sound zero test b h lt = absurd (omega arith)
all_below_sound (suc bound) test b h lt = ground (arith, all_below_sound bound test b)

abbrev is_digit_at : Option ℕ → ℕ → Bool
is_digit_at none d = false
is_digit_at (some e) d = nat_eq e d

-- a digit is written as a character that reads back as it, and is no line break
abbrev reads_back : String → ℕ → Bool
reads_back alphabet d =
    let c = code (rune_at alphabet d) in
    is_digit_at (position alphabet c) d && not (nat_eq c 10 || nat_eq c 13)

std_table : all_below 64 (reads_back std_alphabet) ≡ true
unfolding all_below
std_table = refl

url_table : all_below 64 (reads_back url_alphabet) ≡ true
unfolding all_below
url_table = refl

-- the six-bit digits of a byte string
abbrev sextets : List ℕ → List ℕ
sextets (a ∷ b ∷ c ∷ rest) =
    (a / 4) ∷ (a % 4 * 16 + b / 16) ∷ (b % 16 * 4 + c / 64) ∷ (c % 64) ∷ sextets rest
sextets (a ∷ b ∷ []) = (a / 4) ∷ (a % 4 * 16 + b / 16) ∷ (b % 16 * 4) ∷ []
sextets (a ∷ []) = (a / 4) ∷ (a % 4 * 16) ∷ []
sextets [] = []

decode_digits-sextets : (bs : List ℕ) → All IsByte bs → decode_digits (sextets bs) ≡ some bs
unfolding decode_digits
decode_digits-sextets [] h = refl
decode_digits-sextets (a ∷ []) h = ground arith
decode_digits-sextets (a ∷ b ∷ []) h = ground arith
decode_digits-sextets (a ∷ b ∷ c ∷ rest) h = ground (arith, decode_digits-sextets rest h.1.1.1)

module _ (alphabet : String) (table : all_below 64 (reads_back alphabet) ≡ true) where
  reads : (d : ℕ) → d < 64 → reads_back alphabet d ≡ true
  reads d h = all_below_sound 64 (reads_back alphabet) d table h

  digits-digit :
      (d : ℕ) (s : String) (ds : List ℕ)
      → d < 64
      → digits_base64 alphabet s ≡ some ds
      → digits_base64 alphabet (rune_at alphabet d ∷ₛ s) ≡ some (d ∷ ds)
  unfolding digits_base64
  digits-digit d s ds h e = ground (arith, reads d h)

  digits-encode :
      (bs : List ℕ)
      → All IsByte bs
      → digits_base64 alphabet (encode_base64 alphabet bs) ≡ some (sextets bs)
  unfolding encode_base64
  digits-encode [] h = unfold digits_base64 in refl
  digits-encode (a ∷ []) h =
      digits-digit _ _ _ (omega arith)
        (digits-digit _ _ _ (omega arith) (unfold digits_base64 in refl))
  digits-encode (a ∷ b ∷ []) h = digits-digit _ _ _ (omega arith) (
      digits-digit _ _ _ (omega arith)
        (digits-digit _ _ _ (omega arith) (unfold digits_base64 in refl)))
  digits-encode (a ∷ b ∷ c ∷ rest) h = digits-digit _ _ _ (omega arith) (
      digits-digit _ _ _ (omega arith) (
        digits-digit _ _ _ (omega arith)
          (digits-digit _ _ _ (omega arith) (digits-encode rest (h.1.1.1)))))

  -- Decoding an encoded byte string gives it back.
  decode-encode :
      (bs : List ℕ) → All IsByte bs → decode_base64 alphabet (encode_base64 alphabet bs) ≡ some bs
  unfolding decode_base64
  decode-encode bs h = rw (digits-encode bs h, decode_base64) (decode_digits-sextets bs h)

pub decode-encode_std :
    (bs : List ℕ)
    → All IsByte bs
    → decode_base64 std_alphabet (encode_base64 std_alphabet bs) ≡ some bs
decode-encode_std = decode-encode std_alphabet std_table
