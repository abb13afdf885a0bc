-- ===== src/Webhook/Signer.antt =====
-- internal/webhook/signer.go: the detached JWS of a payload.
use eudi_api_management.Base.{String, ◌≡◌, refl, true, Option, none, some, List, [], ◌∷◌}
use eudi_api_management.Text.{append, split}
use eudi_api_management.Text.Split.{is_free_of, split-join, split-free}
use eudi_api_management.Wire.{Keys}

-- splitCompactJWS: header, payload and signature
unfoldable split_compact : List String → Option (String × String × String)
split_compact (header ∷ payload ∷ sig ∷ []) = some (header, payload, sig)
split_compact _ = none

abbrev detach : Option (String × String × String) → Option String
detach none = none
detach (some (header, payload, sig)) = some (append header (append ".." sig))

-- the part of SignDetached after SignJWS; `none` is its error
abbrev detach_signed : Option String → Option String
detach_signed none = none
detach_signed (some compact) = detach (split_compact (split b'.' compact))

unfoldable pub sign_detached : Keys → String → Option String
unfolding split_compact split
sign_detached keys body = detach_signed (keys.sign_jws body)

-- the compact form that SignJWS documents
abbrev compact_jws : String → String → String → String
compact_jws header payload sig = append header (append "." (append payload (append "." sig)))

-- Of a compact JWS with three segments without dots, the signature header keeps the first and the
-- last and leaves the payload out.
sign_detached-compact :
    (keys : Keys) (body header payload sig : String)
    → keys.sign_jws body ≡ some (compact_jws header payload sig)
    → is_free_of b'.' header ≡ true
    → is_free_of b'.' payload ≡ true
    → is_free_of b'.' sig ≡ true
    → sign_detached keys body ≡ some (append header (append ".." sig))
unfolding sign_detached
sign_detached-compact keys body header payload sig signed h p s = rw (
  signed,
  split-join b'.' "." refl header _ h,
  split-join b'.' "." refl payload sig p,
  split-free b'.' sig s,
)
