-- ===== src/Verifier/Failures.antt =====
-- What a failed call of the verifier engine is reported as.
use eudi_api_management.Base.{
  ℕ, String, ◌≡◌, refl, ap, ◌∙◌, ◌⊎◌, inl, inr, true, false, Option, some, Bool-cases, Option-cases,
}
use eudi_api_management.Base.Results.{ok, err}
use eudi_api_management.Errors.{Error, Problem, relayed}
use eudi_api_management.Verifier.{
  CreateRequest, CreateResponse, Request, Answer, unreachable, unreadable, answer, Engine,
  unavailable, is_ok, read_answer, exchange, request_of, decode_created, create_session,
}

module _ (engine : Engine) {A : Type 0} (decode : String → Option A) where
  read_answer-err :
      (reply : Answer) (e : Error)
      → read_answer engine decode reply ≡ err e
      → (e ≡ unavailable)
        ⊎ ((status : ℕ) × (body : String) × (down : Problem) × (its_status : ℕ) × (reply
              ≡ answer status body)
            × (is_ok status ≡ false)
            × (engine.parse_problem body ≡ some (down, its_status))
            × (e ≡ relayed down its_status))
  unfolding read_answer
  read_answer-err unreachable e h = inl (cc)
  read_answer-err unreadable e h = inl (cc)
  read_answer-err (answer status body) e h = elim (Bool-cases (is_ok status)) [
    | inl good ↦ elim (Option-cases (decode body)) [
      | inl bad ↦ inl (cc (rw (good, bad) at h))
      | inr (a, fine) ↦ cc (rw (good, fine) at h)
    ]
    | inr bad ↦ elim (Option-cases (engine.parse_problem body)) [
      | inl opaque ↦ inl (cc (rw (bad, opaque) at h))
      | inr ((down, its_status), parsed) ↦
          inr (status, body, down, its_status, refl, bad, parsed, cc (rw (bad, parsed) at h))
    ]
  ]

  read_answer-ok :
      (reply : Answer) (a : A)
      → read_answer engine decode reply ≡ ok a
      → (status : ℕ) × (body : String) × (reply ≡ answer status body)
        × (is_ok status ≡ true)
        × (decode body ≡ some a)
  unfolding read_answer
  read_answer-ok unreachable a h = cc
  read_answer-ok unreadable a h = cc
  read_answer-ok (answer status body) a h = elim (Bool-cases (is_ok status)) [
    | inr bad ↦ cc (rw bad at h)
    | inl good ↦ elim (Option-cases (decode body)) [
      | inl bad ↦ cc (rw (good, bad) at h)
      | inr (x, fine) ↦
          let same : x ≡ a = cc (rw (good, fine) at h) in
          (status, body, refl, good, fine ∙ ap some same)
    ]
  ]

module _ (engine : Engine) (token correlation_id : String) (req : CreateRequest)
    (body : String) where
  abbrev pub posted : Request
  posted = request_of engine token "POST" "/internal/v1/sessions" correlation_id (some body)

  posted-outcome :
      engine.encode_request req ≡ some body
      → engine.can_address "/internal/v1/sessions" ≡ true
      → create_session engine token correlation_id req ≡ record {
        outcome = read_answer engine (decode_created engine) (engine.send posted);
        sent = some posted;
      }
  unfolding create_session exchange
  posted-outcome encoded addressed = rw (create_session, encoded, exchange, addressed)

  -- CreateSession, for an engine that can be addressed and a request that encodes, fails only as
  -- `unavailable` or with the problem of a non-2xx answer to the one POST that it sends, and then
  -- with that problem's status.
  pub create_session-err :
      (e : Error)
      → engine.encode_request req ≡ some body
      → engine.can_address "/internal/v1/sessions" ≡ true
      → (create_session engine token correlation_id req).outcome ≡ err e
      → (e ≡ unavailable)
        ⊎ ((status : ℕ) × (text : String) × (down : Problem) × (its_status : ℕ) × (engine.send
                posted
              ≡ answer status text)
            × (is_ok status ≡ false)
            × (engine.parse_problem text ≡ some (down, its_status))
            × (e ≡ relayed down its_status))
  create_session-err e encoded addressed h =
      read_answer-err engine (decode_created engine) (engine.send posted) e
        (rw (posted-outcome encoded addressed) at h)

  -- CreateSession, for an engine that can be addressed and a request that encodes, succeeds only
  -- with what the body of a 2xx answer to its POST decodes to.
  create_session-ok :
      (r : CreateResponse)
      → engine.encode_request req ≡ some body
      → engine.can_address "/internal/v1/sessions" ≡ true
      → (create_session engine token correlation_id req).outcome ≡ ok r
      → (status : ℕ) × (text : String) × (engine.send posted ≡ answer status text)
        × (is_ok status ≡ true)
        × (decode_created engine text ≡ some r)
  create_session-ok r encoded addressed h =
      read_answer-ok engine (decode_created engine) (engine.send posted) r
        (rw (posted-outcome encoded addressed) at h)
