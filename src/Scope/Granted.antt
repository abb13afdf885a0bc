-- ===== src/Scope/Granted.antt =====
-- What a query that passes the scope check was checked against.
use eudi_api_management.Base.{
  suc, String, ◌≡◌, refl, ap, sym, ◌∙◌, inl, inr, Bool, true, false, some, List, [], ◌∷◌, ◌==◌,
  eq_iff, Bool-cases, length,
}
use eudi_api_management.Base.Results.{Result, ok, >>=-eq-ok, or_fail-eq-ok, or_fail}
use eudi_api_management.Registry.{JsonElement, IntendedUse}
use eudi_api_management.Scope.{
  PathElement, DcqlCredential, ScopeFailure, Dcql, registered_credentials, to_dcql, judged,
  validated, check_within_scope, unparsable, to_claim_path, to_path_element,
}

module _ {Q : Type 0} (dcql : Dcql Q) where
  validated-ok : (p q : Q) → validated dcql p ≡ ok q → (p ≡ q) × (dcql.is_valid q ≡ true)
  validated-ok p q h = elim (Bool-cases (dcql.is_valid p)) [
    | inl good ↦ let same : p ≡ q = cc (rw good at h) in (same, ap dcql.is_valid (sym same) ∙ good)
    | inr bad ↦ cc (rw bad at h)
  ]

  judged-ok :
      (q p : Q) (verdict : Bool × List String)
      → judged q verdict ≡ ok p
      → (q ≡ p) × (verdict.0 ≡ true)
  judged-ok q p (true, offenses) h = (cc, refl)
  judged-ok q p (false, offenses) h = cc

  registered_credentials-single :
      (iu : IntendedUse) (id : String) (cs : List DcqlCredential)
      → registered_credentials (iu ∷ []) id ≡ ok cs
      → (iu.intended_use_id ≡ id) × (to_dcql iu.credentials ≡ ok cs)
  unfolding registered_credentials
  registered_credentials-single iu id cs h = elim (Bool-cases (iu.intended_use_id == id)) [
    | inl same ↦ ((eq_iff _ _).0 same, rw (registered_credentials, same) at h)
    | inr other ↦ cc (rw (registered_credentials, other) at h)
  ]

  -- A query that passes the check against one intended use parses, is valid, and lies within the
  -- credentials of that intended use, which is the one that was asked for and whose claim paths
  -- all convert.
  pub check_within_scope-ok :
      (raw : String) (iu : IntendedUse) (id : String) (q : Q)
      → check_within_scope dcql raw (iu ∷ []) id ≡ ok q
      → (dcql.parse raw ≡ some q)
        × (dcql.is_valid q ≡ true)
        × (iu.intended_use_id ≡ id)
        × ((cs : List DcqlCredential) × (to_dcql iu.credentials ≡ ok cs)
            × ((dcql.within_scope q cs).0 ≡ true))
  unfolding check_within_scope
  check_within_scope-ok raw iu id q h =
      let (p, parsed, h1) = >>=-eq-ok (or_fail (dcql.parse raw) unparsable) _ h in
      let (r, valid, h2) = >>=-eq-ok (validated dcql p) _ h1 in
      let (cs, registered, h3) = >>=-eq-ok (registered_credentials (iu ∷ []) id) _ h2 in
      let (same_r, is_valid) = validated-ok p r valid in
      let (same_q, within) = judged-ok r q (dcql.within_scope r cs) h3 in
      let (same_id, converted) = registered_credentials-single iu id cs registered in
      (
        or_fail-eq-ok (dcql.parse raw) unparsable parsed ∙ ap some (same_r ∙ same_q),
        ap dcql.is_valid (sym same_q) ∙ is_valid,
        same_id,
        (cs, converted, ap (λ x. (dcql.within_scope x cs).0) (sym same_q) ∙ within),
      )

-- A claim path that converts keeps its length.
length-to_claim_path :
    (es : List JsonElement) (path : List PathElement)
    → to_claim_path es ≡ ok path
    → length path ≡ length es
unfolding to_claim_path
length-to_claim_path [] path h = ap length (sym (ok_list h))
  where
    ok_list : ◌≡◌ {A = Result ScopeFailure (List PathElement)} (ok []) (ok path) → [] ≡ path
    ok_list e = cc
length-to_claim_path (e ∷ es) path h =
    let (x, converted, h1) = >>=-eq-ok (to_path_element e) _ h in
    let (xs, rest, h2) = >>=-eq-ok (to_claim_path es) _ h1 in
    let same : x ∷ xs ≡ path = cc in ap length (sym same) ∙ ap suc (length-to_claim_path es xs rest)
