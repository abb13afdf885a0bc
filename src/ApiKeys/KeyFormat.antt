-- ===== src/ApiKeys/KeyFormat.antt =====
-- A minted key parses, into the prefix that is stored and a secret of the right shape.
use eudi_api_management.Base.{
  ℕ, zero, suc, String, ◌≡◌, refl, sym, subst, true, ap, some, List, [], ◌∷◌, arith, All, length,
  nat_eq, not, Option-cases, inl, inr,
}
use eudi_api_management.Base.Results.{ok, >>=-eq-ok, or_fail, ok-inj, or_fail-eq-ok}
use eudi_api_management.Text.{text_length, contains_rune, split_n}
use eudi_api_management.Text.Split.{is_free_of, split_n-join}
use eudi_api_management.Text.Encoding.{
  IsByte, crockford_alphabet, url_alphabet, encode_base32, encode_base64, all_below,
}
use eudi_api_management.Text.Alphabets.{all_runes-encode, text_length-encode, encode_base32-runes}
use eudi_api_management.ApiKeys.Phc.{encode_phc}
use eudi_api_management.ApiKeys.{
  Derive, Minted, is_crockford, is_base64url, is_base64url_rune, check_parts, parse, read_full,
  display, mint,
}

read_full-lem :
    (n : ℕ) (r bs rest : List ℕ)
    → read_full n r ≡ some (bs, rest)
    → All IsByte r
    → (length bs ≡ n) × All IsByte bs × All IsByte rest
unfolding read_full
read_full-lem zero r bs rest e h = ground arith
read_full-lem (suc n) [] bs rest e h = cc
read_full-lem (suc n) (b ∷ r) bs rest e h = elim (Option-cases (read_full n r)) [
  | inl none_left ↦ cc (rw (none_left, read_full) at e)
  | inr ((xs, tail), some_left) ↦
      let (len, now, later) = read_full-lem n r xs tail some_left h.1 in
      ground (arith, len, now, later)
]

split-display :
    (prefix secret : String)
    → is_free_of b'_' prefix ≡ true
    → split_n 2 b'_' (display prefix secret) ≡ "vk" ∷ prefix ∷ secret ∷ []
unfolding split_n display
split-display prefix secret free =
    ap (λ l. "vk" ∷ l) (split_n-join b'_' "_" refl 0 prefix secret free)

-- a text of the right shape is accepted whatever the secret's own underscores
parse-display :
    (prefix secret : String)
    → is_free_of b'_' prefix ≡ true
    → text_length prefix ≡ 8
    → is_crockford prefix ≡ true
    → text_length secret ≡ 32
    → is_base64url secret ≡ true
    → parse (display prefix secret) ≡ ok (prefix, secret)
unfolding parse
parse-display prefix secret free lp cp ls us =
    rw (split-display prefix secret free, check_parts) (ground arith)

base32_shape :
    (bs : List ℕ)
    → length bs ≡ 5
    → All IsByte bs
    → (text_length (encode_base32 crockford_alphabet bs) ≡ 8)
      × (is_crockford (encode_base32 crockford_alphabet bs) ≡ true)
      × (is_free_of b'_' (encode_base32 crockford_alphabet bs) ≡ true)
unfolding is_crockford
base32_shape (a ∷ b ∷ c ∷ d ∷ e ∷ []) len h = (
  unfold encode_base32 in refl,
  encode_base32-runes (contains_rune crockford_alphabet) a b c d e (unfold all_below in refl) h,
  encode_base32-runes (λ c. not (nat_eq c b'_')) a b c d e (unfold all_below in refl) h,
)
base32_shape bs len h = absurd (omega arith)

base64url_shape :
    (bs : List ℕ)
    → length bs ≡ 24
    → All IsByte bs
    → (text_length (encode_base64 url_alphabet bs) ≡ 32)
      × (is_base64url (encode_base64 url_alphabet bs) ≡ true)
unfolding is_base64url
base64url_shape bs len h = (
  text_length-encode url_alphabet 8 bs len,
  all_runes-encode url_alphabet is_base64url_rune (unfold all_below in refl) bs h,
)

-- A key that was minted from random bytes parses into its stored prefix and a secret, and the hash
-- that is stored is the PHC text of a 16-byte salt and of the tag derived from that secret.
pub parse-mint :
    (derive : Derive) (r : List ℕ) (m : Minted)
    → mint derive r ≡ ok m
    → All IsByte r
    → (secret : String) × (salt : List ℕ) × (parse m.display_key ≡ ok (m.prefix, secret))
      × (m.phc_hash ≡ encode_phc salt (derive secret salt 2 19456 1 32))
      × (length salt ≡ 16)
      × All IsByte salt
unfolding mint
parse-mint derive r m e h =
    let ((prefix_raw, r1), read1, e1) = >>=-eq-ok (or_fail (read_full 5 r) _) _ e in
    let ((secret_raw, r2), read2, e2) = >>=-eq-ok (or_fail (read_full 24 r1) _) _ e1 in
    let ((salt, r3), read3, e3) = >>=-eq-ok (or_fail (read_full 16 r2) _) _ e2 in
    let (len1, bytes1, left1) = read_full-lem 5 r prefix_raw r1 (or_fail-eq-ok _ _ read1) h in
    let (len2, bytes2, left2) = read_full-lem 24 r1 secret_raw r2 (or_fail-eq-ok _ _ read2) left1 in
    let (len3, bytes3, left3) = read_full-lem 16 r2 salt r3 (or_fail-eq-ok _ _ read3) left2 in
    let (lp, cp, free) = base32_shape prefix_raw len1 bytes1 in
    let (ls, us) = base64url_shape secret_raw len2 bytes2 in
    (
      encode_base64 url_alphabet secret_raw,
      salt,
      subst
          (λ (x : Minted).
            parse x.display_key ≡ ok (x.prefix, encode_base64 url_alphabet secret_raw))
          (ok-inj e3) (parse-display _ _ free lp cp ls us),
      sym (ap (λ (x : Minted). x.phc_hash) (ok-inj e3)),
      len3,
      bytes3,
    )
