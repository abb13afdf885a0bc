-- ===== src/Text.antt =====
-- What the program uses of Go's `strings`, `encoding/base32` and `encoding/base64`, over texts taken
-- character by character; a character is tested by its code point.
pub mod Split
pub mod Encoding
pub mod Alphabets
pub mod Padded
pub mod Trim
use Prim.Native.Char.{Char, code}
use eudi_api_management.Base.{
  ℕ, zero, suc, ◌+◌, ◌≤◌, ◌<◌, String, ◌≡◌, refl, Bool, true, false, ◌&&◌, ◌||◌, not, Option, none,
  some, List, [], ◌∷◌, nat_eq, leb, if◌then◌else◌,
}

-- characters of a text: its length in bytes where it is ASCII
abbrev pub text_length : String → ℕ
text_length String.[] = 0
text_length (String.◌∷◌ c s) = suc (text_length s)

-- strings.ContainsRune(s, c)
abbrev pub contains_rune : String → ℕ → Bool
contains_rune String.[] c = false
contains_rune (String.◌∷◌ d s) c = nat_eq (code d) c || contains_rune s c

abbrev pub all_runes : (ℕ → Bool) → String → Bool
all_runes p String.[] = true
all_runes p (String.◌∷◌ c s) = p (code c) && all_runes p s

-- the last separated part grows at its front
abbrev push : Char → List String → List String
push c [] = String.◌∷◌ c String.[] ∷ []
push c (p ∷ ps) = String.◌∷◌ c p ∷ ps

-- strings.Split(s, sep), for a separator of one character
unfoldable pub split : ℕ → String → List String
split sep String.[] = String.[] ∷ []
split sep (String.◌∷◌ c s) =
    let rest = split sep s in if nat_eq (code c) sep then String.[] ∷ rest else push c rest

-- strings.SplitN(s, sep, n + 1): at most `n` separators are split at
unfoldable pub split_n : ℕ → ℕ → String → List String
split_n zero sep s = s ∷ []
split_n (suc n) sep String.[] = String.[] ∷ []
split_n (suc n) sep (String.◌∷◌ c s) = elim (nat_eq (code c) sep) [
  | true ↦ String.[] ∷ split_n n sep s
  | false ↦ push c (split_n (suc n) sep s)
]

-- the character at a position, or '?' past the end
abbrev pub rune_at : String → ℕ → Char
rune_at String.[] i = "?"
rune_at (String.◌∷◌ c s) zero = c
rune_at (String.◌∷◌ c s) (suc i) = rune_at s i

-- the first position of a character
abbrev pub position : String → ℕ → Option ℕ
position String.[] c = none
position (String.◌∷◌ d s) c =
    if nat_eq (code d) c
    then some 0
    else elim (position s c) [ none ↦ none | some i ↦ some (suc i) ]

-- concatenation, in a form that computes at a literal in front
abbrev pub append : String → String → String
append String.[] t = t
append (String.◌∷◌ c s) t = String.◌∷◌ c (append s t)

-- unicode.IsSpace
unfoldable pub is_space : ℕ → Bool
is_space c =
    leb 9 c && leb c 13
    || nat_eq c 32
    || nat_eq c 0x85
    || nat_eq c 0xa0
    || nat_eq c 0x1680
    || leb 0x2000 c && leb c 0x200a
    || nat_eq c 0x2028
    || nat_eq c 0x2029
    || nat_eq c 0x202f
    || nat_eq c 0x205f
    || nat_eq c 0x3000

-- strings.TrimLeft by a test
unfoldable pub trim_left : (ℕ → Bool) → String → String
trim_left p String.[] = String.[]
trim_left p (String.◌∷◌ c s) =
    let rest = trim_left p s in if p (code c) then rest else String.◌∷◌ c s

-- strings.TrimRight by a test
unfoldable pub trim_right : (ℕ → Bool) → String → String
trim_right p String.[] = String.[]
trim_right p (String.◌∷◌ c s) = elim (trim_right p s) [
  | String.[] ↦ if p (code c) then String.[] else String.◌∷◌ c String.[]
  | String.◌∷◌ d t ↦ String.◌∷◌ c (String.◌∷◌ d t)
]

-- strings.TrimSpace
unfoldable pub trim_space : String → String
unfolding trim_left trim_right is_space
trim_space s = trim_right is_space (trim_left is_space s)
