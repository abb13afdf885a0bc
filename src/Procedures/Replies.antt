-- ===== src/Procedures/Replies.antt =====
-- Which replies of a stored procedure count as success.
use Prim.Native.String.{◌++◌}
use eudi_api_management.Base.{
  String, ◌≡◌, refl, sym, ◌∙◌, ◌⊎◌, inl, inr, false, Option, none, some, ◌==◌, eq_iff, ◌≢◌,
  ==-eq-false_of_ne, Bool-cases,
}
use eudi_api_management.Base.Results.{ok, err, or_fail, >>=-eq-ok, or_fail-eq-ok}
use eudi_api_management.Errors.{Kit, result_error}
use eudi_api_management.Procedures.{
  Envelope, Driver, scanned, raised, broken, Decoder, classify, parse_envelope, of_raised,
  of_scanned, call, command,
}

-- the text that a driver reply carries
abbrev text_of : Driver → Option String
text_of (scanned out) = some out
text_of (raised message) = some message
text_of broken = none

classify-ok :
    (e : Envelope) (content code : String)
    → classify e ≡ ok (content, code)
    → ((e.result ≡ "success") × (code ≡ "") × (content ≡ e.content))
      ⊎ ((e.result ≡ "error") × (code ≡ e.code) × (content ≡ ""))
unfolding classify
classify-ok e content code h = elim (Bool-cases (e.result == "success")) [
  | inl good ↦ inl ((eq_iff _ _).0 good, cc (rw good at h), cc (rw good at h))
  | inr other ↦ elim (Bool-cases (e.result == "error")) [
    | inl bad ↦ inr ((eq_iff _ _).0 bad, cc (rw (other, bad) at h), cc (rw (other, bad) at h))
    | inr odd ↦ cc (rw (other, odd) at h)
  ]
]

parse_envelope-ok :
    (decode : Decoder) (raw content code : String)
    → parse_envelope decode raw ≡ ok (content, code)
    → (e : Envelope) × (decode raw ≡ some e)
      × (((e.result ≡ "success") × (code ≡ "") × (content ≡ e.content))
          ⊎ ((e.result ≡ "error") × (code ≡ e.code) × (content ≡ "")))
unfolding parse_envelope
parse_envelope-ok decode raw content code h =
    let (e, decoded, classified) = >>=-eq-ok (or_fail (decode raw) _) classify h in
    (e, or_fail-eq-ok (decode raw) _ decoded, classify-ok e content code classified)

module _ (kit : Kit) (decode : Decoder) where
  of_raised-ok :
      (content code out : String)
      → of_raised kit (content, code) ≡ ok out
      → (code ≡ "") × (out ≡ "")
  unfolding result_error
  of_raised-ok content code out h = elim (Bool-cases (code == "")) [
    | inl empty ↦ ((eq_iff _ _).0 empty, cc (rw empty at h))
    | inr full ↦ cc (rw full at h)
  ]

  of_scanned-ok :
      (content code out : String)
      → of_scanned kit (content, code) ≡ ok out
      → (code ≡ "") × (out ≡ content)
  unfolding result_error
  of_scanned-ok content code out h = elim (Bool-cases (code == "")) [
    | inl empty ↦ ((eq_iff _ _).0 empty, cc (rw empty at h))
    | inr full ↦ cc (rw full at h)
  ]

  -- A procedure call succeeds only if the text of the reply, of a row or of a raised P0001, is an
  -- envelope that says success or one that says error without a code.
  call-ok :
      (reply : Driver) (out : String)
      → call kit decode reply ≡ ok out
      → (raw : String) × (e : Envelope) × (text_of reply ≡ some raw)
        × (decode raw ≡ some e)
        × ((e.result ≡ "success") ⊎ ((e.result ≡ "error") × (e.code ≡ "")))
  unfolding call
  call-ok broken out h = cc
  call-ok (raised message) out h =
      let ((content, code), parsed, rest) =
        >>=-eq-ok (parse_envelope decode message) (of_raised kit) h in
      let (e, decoded, which) = parse_envelope-ok decode message content code parsed in
      let (empty, nothing) = of_raised-ok content code out rest in
      (
        message,
        e,
        refl,
        decoded,
        elim which [
          | inl (good, _, _) ↦ inl good
          | inr (bad, same, _) ↦ inr (bad, sym same ∙ empty)
        ],
      )
  call-ok (scanned raw) out h =
      let ((content, code), parsed, rest) =
        >>=-eq-ok (parse_envelope decode raw) (of_scanned kit) h in
      let (e, decoded, which) = parse_envelope-ok decode raw content code parsed in
      let (empty, nothing) = of_scanned-ok content code out rest in
      (
        raw,
        e,
        refl,
        decoded,
        elim which [
          | inl (good, _, _) ↦ inl good
          | inr (bad, same, _) ↦ inr (bad, sym same ∙ empty)
        ],
      )

  -- An error envelope with a code is refused with the error of that code, whether it is the reply
  -- or the message of a raised P0001.
  command-refused :
      (raw : String) (e : Envelope)
      → decode raw ≡ some e
      → e.result ≡ "error"
      → e.code ≢ ""
      → (command kit decode (scanned raw) ≡ err (kit.from_result_code ("err:" ++ e.code)))
        × (command kit decode (raised raw) ≡ err (kit.from_result_code ("err:" ++ e.code)))
  unfolding command call parse_envelope classify result_error
  command-refused raw e decoded bad full =
      let coded : (e.code == "") ≡ false = ==-eq-false_of_ne e.code "" full in
      (rw (decoded, bad, coded) refl, rw (decoded, bad, coded) refl)
