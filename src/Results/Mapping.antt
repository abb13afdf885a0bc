-- ===== src/Results/Mapping.antt =====
-- What a client reads of a handoff payload.
use eudi_api_management.Base.{
  String, ◌≡◌, refl, sym, ap, ◌↔◌, ◌≢◌, inl, inr, none, some, List, [], ◌∷◌, map, arith, eq_iff,
  All, length, length-map, ==-eq-false_of_ne, ◌==◌, Bool-cases,
}
use eudi_api_management.Base.Results.{ok, >>=-eq-ok, or_fail, or_fail-eq-ok, ok-inj}
use eudi_api_management.Errors.{fault}
use eudi_api_management.Wire.{
  ReportCheck, VerificationReport, CheckResult, PipelineReport, PipelineResult, Envelope, Codec,
  Keys,
}
use eudi_api_management.Results.{
  Reply, value, nil, failed, map_result, map_check, map_outcome, map_failure, Mapped, map_decoded,
  map_report, map_embedded, Fetched, fetch,
}

fetch-value :
    (codec : Codec) (keys : Keys) (raw : String) (f : Fetched)
    → fetch codec keys (value raw) ≡ ok f
    → (env : Envelope) × (plain : String) × (res : PipelineResult) × (codec.decode_envelope raw
        ≡ some env)
      × (keys.decrypt_jwe env.result_jwe ≡ some plain)
      × (codec.decode_result plain ≡ some res)
      × (f.result ≡ some (map_result res))
unfolding fetch
fetch-value codec keys raw f e =
    let (env, decoded, e1) = >>=-eq-ok (or_fail (codec.decode_envelope raw) _) _ e in
    let (plain, opened, e2) = >>=-eq-ok (or_fail (keys.decrypt_jwe env.result_jwe) _) _ e1 in
    let (res, read, e3) = >>=-eq-ok (or_fail (codec.decode_result plain) _) _ e2 in
    let (mapped, _, e4) = >>=-eq-ok (map_embedded codec _ res.report) _ e3 in
    (
      env,
      plain,
      res,
      or_fail-eq-ok _ _ decoded,
      or_fail-eq-ok _ _ opened,
      or_fail-eq-ok _ _ read,
      sym (ap (λ (x : Fetched). x.result) (ok-inj e4)),
    )

-- A fetch that succeeds is without a result exactly if the payload key is gone: what stands under
-- the key, corrupt or not, never gives a success without a result.
fetch-none_iff :
    (codec : Codec) (keys : Keys) (reply : Reply String) (f : Fetched)
    → fetch codec keys reply ≡ ok f
    → (f.result ≡ none) ↔ (reply ≡ nil)
unfolding fetch
fetch-none_iff codec keys nil f e =
    (λ _. refl, λ _. sym (ap (λ (x : Fetched). x.result) (ok-inj e)))
fetch-none_iff codec keys failed f e = cc
fetch-none_iff codec keys (value raw) f e =
    let (env, plain, res, _, _, _, shown) = fetch-value codec keys raw f e in (λ h. cc, λ h. cc)

abbrev AreMapped : List ReportCheck → Type 0
AreMapped = All λ c. c.outcome ≢ "skipped"

map_outcome-ne-skipped : (outcome : String) → map_outcome outcome ≢ "skipped"
unfolding map_outcome
map_outcome-ne-skipped outcome e = elim (Bool-cases (outcome == "skipped")) [
  | inl skipped ↦ absurd (renamed (rw skipped at e))
  | inr other ↦ cc (sym other, (eq_iff outcome "skipped").1 (rw other at e))
]
  where
    renamed : ◌≢◌ {A = String} "skipped_by_policy" "skipped"
    renamed = ground (arith, eq_iff "skipped_by_policy" "skipped")

map-map_check : (cs : List CheckResult) → AreMapped (map map_check cs)
unfolding map_check
map-map_check [] = tt
map-map_check (c ∷ cs) = (map_outcome-ne-skipped c.outcome, map-map_check cs)

map_failure-none_iff : (code : String) → (map_failure code ≡ none) ↔ (code ≡ "")
unfolding map_failure
map_failure-none_iff code = elim (Bool-cases (code == "")) [
  | inl empty ↦ rw empty ((λ _. (eq_iff code "").0 empty), (λ _. refl))
  | inr full ↦ rw full ((λ h. cc), (λ h. cc (sym full, (eq_iff code "").1 h)))
]

-- A report that is not empty and that is mapped has decoded. The mapped report has a
-- check for each check of the pipeline and none that is called skipped, and a failure is set exactly
-- if the pipeline's report has a failure code.
map_report-ok :
    (codec : Codec) (raw : String) (m : Mapped)
    → raw ≢ ""
    → map_report codec raw ≡ ok m
    → (rep : PipelineReport) × (out : VerificationReport) × (codec.decode_report raw ≡ some rep)
      × (m.0 ≡ some out)
      × (length out.checks ≡ length rep.checks)
      × AreMapped out.checks
      × ((m.1 ≡ none) ↔ (rep.fail_code ≡ ""))
unfolding map_report map_decoded
map_report-ok codec raw m filled e =
    let (rep, decoded, e1) =
      >>=-eq-ok (or_fail (codec.decode_report raw) (fault "results: malformed report")) _
        (rw (==-eq-false_of_ne raw "" filled) at e) in
    (
      rep,
      record { checks = map map_check rep.checks },
      or_fail-eq-ok _ _ decoded,
      sym (ap (λ (x : Mapped). x.0) (ok-inj e1)),
      length-map map_check rep.checks,
      map-map_check rep.checks,
      rw (sym (ap (λ (x : Mapped). x.1) (ok-inj e1))) (map_failure-none_iff rep.fail_code),
    )
