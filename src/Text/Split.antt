-- ===== src/Text/Split.antt =====
-- Splitting a text that was joined.
use Prim.Native.Char.{Char, code}
use eudi_api_management.Base.{ℕ, suc, String, ◌≡◌, refl, Bool, true, not, [], ◌∷◌, arith, nat_eq}
use eudi_api_management.Text.{contains_rune, all_runes, append, split, split_n}

-- the separator does not stand in the text
abbrev pub is_free_of : ℕ → String → Bool
is_free_of sep = all_runes (λ c. not (nat_eq c sep))

module _ (sep : ℕ) (d : Char) (is_sep : code d ≡ sep) where
  pub split_n-join :
      (n : ℕ) (s rest : String)
      → is_free_of sep s ≡ true
      → split_n (suc n) sep (append s (String.◌∷◌ d rest)) ≡ s ∷ split_n n sep rest
  unfolding split_n
  split_n-join n String.[] rest free = ground arith
  split_n-join n (String.◌∷◌ c s) rest free = ground (arith, split_n-join n s rest)

  pub split-join :
      (s rest : String)
      → is_free_of sep s ≡ true
      → split sep (append s (String.◌∷◌ d rest)) ≡ s ∷ split sep rest
  unfolding split
  split-join String.[] rest free = ground arith
  split-join (String.◌∷◌ c s) rest free = ground (arith, split-join s rest)

pub split-free : (sep : ℕ) (s : String) → is_free_of sep s ≡ true → split sep s ≡ s ∷ []
unfolding split
split-free sep String.[] free = refl
split-free sep (String.◌∷◌ c s) free = ground (arith, split-free sep s)

-- What holds of every character of an alphabet holds of the characters of a text over it.
all_runes-of-contains :
    (p : ℕ → Bool) (alphabet : String) (c : ℕ)
    → all_runes p alphabet ≡ true
    → contains_rune alphabet c ≡ true
    → p c ≡ true
all_runes-of-contains p String.[] c h k = cc
all_runes-of-contains p (String.◌∷◌ d s) c h k = ground (arith, all_runes-of-contains p s c)

all_runes_mono :
    (p q : ℕ → Bool) (s : String)
    → ((c : ℕ) → p c ≡ true → q c ≡ true)
    → all_runes p s ≡ true
    → all_runes q s ≡ true
all_runes_mono p q String.[] h k = refl
all_runes_mono p q (String.◌∷◌ c s) h k = ground (arith, h (code c), all_runes_mono p q s h)
