-- ===== src/Text/Trim.antt =====
-- Laws of strings.TrimLeft and strings.TrimRight.
use Prim.Native.Char.{Char, code}
use eudi_api_management.Base.{
  ℕ, String, ◌≡◌, refl, sym, ap, ◌∙◌, ◌⊎◌, inl, inr, Bool, true, false, not, Bool-cases,
  if◌then◌else◌,
}
use eudi_api_management.Text.{append, trim_left, trim_right}

String-cases : (s : String) → (s ≡ "") ⊎ ((c : Char) × (t : String) × (s ≡ String.◌∷◌ c t))
String-cases String.[] = inl refl
String-cases (String.◌∷◌ c s) = inr (c, s, refl)

module _ (p : ℕ → Bool) where
  -- the first character, if any, is none to trim
  abbrev pub head_stays : String → Bool
  head_stays String.[] = true
  head_stays (String.◌∷◌ c s) = not (p (code c))

  pub trim_left-head : (s : String) → head_stays (trim_left p s) ≡ true
  unfolding trim_left
  trim_left-head String.[] = refl
  trim_left-head (String.◌∷◌ c s) = elim (Bool-cases (p (code c))) [
    | inl trimmed ↦ rw trimmed (trim_left-head s)
    | inr stays ↦ rw stays (rw stays refl)
  ]

  -- what the end of a text makes of a trimmed rest
  abbrev trimmed_end : Char → String → String
  trimmed_end c String.[] = if p (code c) then String.[] else String.◌∷◌ c String.[]
  trimmed_end c (String.◌∷◌ d t) = String.◌∷◌ c (String.◌∷◌ d t)

  trim_right-cons :
      (c : Char) (s : String) → trim_right p (String.◌∷◌ c s) ≡ trimmed_end c (trim_right p s)
  unfolding trim_right
  trim_right-cons c s = elim (String-cases (trim_right p s)) [
    | inl e ↦ rw (e, trim_right) refl
    | inr (d, t, e) ↦ rw (e, trim_right) refl
  ]

  trim_right-trimmed :
      (c : Char) (s : String)
      → trim_right p s ≡ s
      → trim_right p (trimmed_end c s) ≡ trimmed_end c s
  unfolding trim_right
  trim_right-trimmed c String.[] h = elim (Bool-cases (p (code c))) [
    | inl e ↦ rw e refl
    | inr e ↦ rw e (rw e refl)
  ]
  trim_right-trimmed c (String.◌∷◌ d t) h =
      trim_right-cons c (String.◌∷◌ d t) ∙ ap (trimmed_end c) h

  pub trim_right-trim_right : (s : String) → trim_right p (trim_right p s) ≡ trim_right p s
  unfolding trim_right
  trim_right-trim_right String.[] = refl
  trim_right-trim_right (String.◌∷◌ c s) =
      rw (trim_right-cons c s) (trim_right-trimmed c (trim_right p s) (trim_right-trim_right s))

  -- A character to trim at the end is trimmed, and one that stays keeps the text.
  pub trim_right-last :
      (s : String) (c : Char)
      → p (code c) ≡ true
      → trim_right p (append s (String.◌∷◌ c String.[])) ≡ trim_right p s
  unfolding trim_right
  trim_right-last String.[] c h = rw h refl
  trim_right-last (String.◌∷◌ d s) c h =
      trim_right-cons d (append s (String.◌∷◌ c String.[]))
      ∙ ap (trimmed_end d) (trim_right-last s c h)
      ∙ sym (trim_right-cons d s)

  pub trim_right-kept :
      (s : String) (c : Char)
      → p (code c) ≡ false
      → trim_right p (append s (String.◌∷◌ c String.[])) ≡ append s (String.◌∷◌ c String.[])
  unfolding trim_right
  trim_right-kept String.[] c h = rw h refl
  trim_right-kept (String.◌∷◌ d s) c h =
      trim_right-cons d (append s (String.◌∷◌ c String.[]))
      ∙ ap (trimmed_end d) (trim_right-kept s c h)
      ∙ kept s
    where
      kept :
          (t : String)
          → trimmed_end d (append t (String.◌∷◌ c String.[]))
            ≡ String.◌∷◌ d (append t (String.◌∷◌ c String.[]))
      kept String.[] = refl
      kept (String.◌∷◌ e t) = refl

  pub trim_left-kept :
      (s t : String) → head_stays s ≡ true → (s ≡ "") ⊎ (trim_left p (append s t) ≡ append s t)
  unfolding trim_left
  trim_left-kept String.[] t h = inl refl
  trim_left-kept (String.◌∷◌ c s) t h = elim (Bool-cases (p (code c))) [
    | inl trimmed ↦ cc (rw trimmed at h)
    | inr stays ↦ inr (rw stays refl)
  ]

module _ (p q : ℕ → Bool) where
  trimmed_end-head :
      (c : Char) (s : String) → not (p (code c)) ≡ true → head_stays p (trimmed_end q c s) ≡ true
  trimmed_end-head c String.[] h = elim (Bool-cases (q (code c))) [
    | inl e ↦ rw e refl
    | inr e ↦ rw e h
  ]
  trimmed_end-head c (String.◌∷◌ d t) h = h

  pub trim_right-head : (s : String) → head_stays p s ≡ true → head_stays p (trim_right q s) ≡ true
  unfolding trim_right
  trim_right-head String.[] h = refl
  trim_right-head (String.◌∷◌ c s) h =
      rw (trim_right-cons q c s) (trimmed_end-head c (trim_right q s) h)
