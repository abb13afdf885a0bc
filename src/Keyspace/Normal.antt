-- ===== src/Keyspace/Normal.antt =====
-- Prefixes that are normal already, and keys under one prefix.
use eudi_api_management.Base.{
  String, ◌≡◌, ◌≢◌, refl, ap, sym, ◌∙◌, ◌⊎◌, inl, inr, true, ◌==◌, eq_iff, Bool-cases,
  ==-eq-false_of_ne,
}
use eudi_api_management.Text.{append, trim_left, trim_right, trim_space, is_space}
use eudi_api_management.Text.Trim.{
  head_stays, trim_left-head, trim_left-kept, trim_right-head, trim_right-last, trim_right-kept,
  trim_right-trim_right,
}
use eudi_api_management.Keyspace.{is_colon, new_prefix, key}

abbrev drop_length : String → String → String
drop_length String.[] s = s
drop_length (String.◌∷◌ c p) String.[] = String.[]
drop_length (String.◌∷◌ c p) (String.◌∷◌ d s) = drop_length p s

drop_length-append : (p s : String) → drop_length p (append p s) ≡ s
drop_length-append String.[] s = refl
drop_length-append (String.◌∷◌ c p) s = drop_length-append p s

-- Two different keys stay different under one prefix.
pub key-inj : (prefix j k : String) → key prefix j ≡ key prefix k → j ≡ k
unfolding key
key-inj prefix j k h =
    sym (drop_length-append prefix j) ∙ ap (drop_length prefix) h ∙ drop_length-append prefix k

-- the prefix without its colon
abbrev core : String → String
core p = trim_right is_colon (trim_space p)

core-head : (p : String) → head_stays is_space (core p) ≡ true
unfolding trim_space
core-head p =
    trim_right-head is_space is_colon (trim_right is_space (trim_left is_space p))
      (trim_right-head is_space is_space (trim_left is_space p) (trim_left-head is_space p))

-- A core that is not empty, with its colon, is left alone by TrimSpace.
trim_space-core :
    (t : String) → head_stays is_space t ≡ true → t ≢ "" → trim_space (append t ":") ≡ append t ":"
unfolding trim_space is_space
trim_space-core t h full = elim (trim_left-kept is_space t ":" h) [
  | inl empty ↦ absurd (full empty)
  | inr kept ↦ rw kept (trim_right-kept is_space t ":" refl)
]

core-core : (p : String) → core p ≢ "" → core (append (core p) ":") ≡ core p
core-core p full =
    ap (trim_right is_colon) (trim_space-core (core p) (core-head p) full)
    ∙ trim_right-last is_colon (core p) ":" refl
    ∙ trim_right-trim_right is_colon (trim_space p)

new_prefix-eq-empty : (p : String) → (core p == "") ≡ true → new_prefix p ≡ ""
unfolding new_prefix
new_prefix-eq-empty p empty = rw empty refl

new_prefix-eq-core : (p : String) → core p ≢ "" → new_prefix p ≡ append (core p) ":"
unfolding new_prefix
new_prefix-eq-core p full = rw (==-eq-false_of_ne (core p) "" full) refl

new_prefix_empty : new_prefix "" ≡ ""
unfolding new_prefix trim_right trim_space
new_prefix_empty = refl

-- A configured prefix is normal after one pass: it is empty, or it is what stands before its last
-- colon and exactly that colon, and a second pass changes nothing. Two different keys stay different
-- under it.
pub new_prefix-normal :
    (p j k : String)
    → key (new_prefix p) j ≡ key (new_prefix p) k
    → (new_prefix (new_prefix p) ≡ new_prefix p)
      × ((new_prefix p ≡ "")
          ⊎ ((q : String) × (new_prefix p ≡ append q ":") × (q ≢ "") × (trim_right is_colon q ≡ q)))
      × (j ≡ k)
new_prefix-normal p j k same = elim (Bool-cases (core p == "")) [
  | inl empty ↦
      let none_left = new_prefix-eq-empty p empty in
      (
        ap new_prefix none_left ∙ new_prefix_empty ∙ sym none_left,
        inl none_left,
        key-inj (new_prefix p) j k same,
      )
  | inr some_left ↦
      let full : core p ≢ "" = (λ e. cc (some_left, (eq_iff (core p) "").1 e)) in
      let written = new_prefix-eq-core p full in
      let again = core-core p full in
      (
        ap new_prefix written
            ∙ new_prefix-eq-core (append (core p) ":") (λ e. full (sym again ∙ e))
            ∙ ap (λ q. append q ":") again
            ∙ sym written,
        inr (core p, written, full, trim_right-trim_right is_colon (trim_space p)),
        key-inj (new_prefix p) j k same,
      )
]
