-- ===== src/Webhook/Deliverer/Permanence.antt =====
-- Which deliveries fail for good.
use eudi_api_management.Base.{
  ℕ, String, ◌≡◌, refl, ◌↔◌, ◌⊎◌, inl, inr, Option, none, some, Bool-cases, Option-cases,
}
use eudi_api_management.Base.Results.{ok, err, Result-cases}
use eudi_api_management.Wire.{WebhookPayload, PipelineResult, Envelope, Codec, Keys}
use eudi_api_management.Results.{map_embedded}
use eudi_api_management.Webhook.Signer.{sign_detached}
use eudi_api_management.Webhook.Deliverer.{
  permanent, transient, Post, Doer, is_success, answered, post_of, payload_of, build_payload,
  post_signed, deliver_payload, deliver,
}

answered-not_permanent :
    (post : Post) (o : Option ℕ) → (answered post o).outcome ≡ err permanent → ⊥
answered-not_permanent post none h = cc
answered-not_permanent post (some status) h = elim (Bool-cases (is_success status)) [
  | inl good ↦ cc (rw good at h)
  | inr bad ↦ cc (rw bad at h)
]

module _ (codec : Codec) (keys : Keys) (doer : Doer) where
  deliver_payload-not_permanent :
      (url correlation_id : String) (p : WebhookPayload)
      → (deliver_payload codec keys doer url correlation_id p).outcome ≡ err permanent
      → ⊥
  unfolding deliver_payload post_signed
  deliver_payload-not_permanent url correlation_id p h =
      elim (Option-cases (codec.encode_payload p)) [
        | inl bad ↦ cc (rw (deliver_payload, bad) at h)
        | inr (body, encoded) ↦ elim (Option-cases (sign_detached keys body)) [
          | inl bad ↦ cc (rw (deliver_payload, encoded, bad) at h)
          | inr (signature, signed) ↦ elim (Bool-cases (doer.can_build url)) [
            | inr bad ↦ cc (rw (deliver_payload, encoded, signed, post_signed, bad) at h)
            | inl good ↦
                answered-not_permanent (post_of url correlation_id body signature)
                  (doer.send (post_of url correlation_id body signature))
                  (rw (deliver_payload, encoded, signed, post_signed, good) at h)
          ]
        ]
      ]

  -- the result of an envelope does not decrypt, or does not decode
  abbrev pub IsCorrupt : Envelope → Type 0
  IsCorrupt env =
      (keys.decrypt_jwe env.result_jwe ≡ none)
      ⊎ ((plain : String) × (keys.decrypt_jwe env.result_jwe ≡ some plain)
          × (codec.decode_result plain ≡ none))

  build_payload-cases :
      (env : Envelope)
      → (IsCorrupt env × (build_payload codec keys doer env ≡ err permanent))
        ⊎ ((build_payload codec keys doer env ≡ err transient) × (IsCorrupt env → ⊥))
        ⊎ ((p : WebhookPayload) × (build_payload codec keys doer env ≡ ok p) × (IsCorrupt env → ⊥))
  unfolding build_payload
  build_payload-cases env = elim (Option-cases (keys.decrypt_jwe env.result_jwe)) [
    | inl bad ↦ inl (inl bad, rw (build_payload, bad))
    | inr (plain, opened) ↦ elim (Option-cases (codec.decode_result plain)) [
      | inl bad ↦ inl (inr (plain, opened, bad), rw (build_payload, opened, bad))
      | inr (res, decoded) ↦
          elim (Result-cases
            (map_embedded codec "webhook: re-marshal embedded report" res.report)) [
              | inl (mapped, good) ↦ inr (
                  inr (
                    payload_of env res mapped,
                    rw (build_payload, opened, decoded, good),
                    sound plain res opened decoded,
                  ))
              | inr (e, bad) ↦
                  inr
                    (inl (rw (build_payload, opened, decoded, bad), sound plain res opened decoded))
            ]
    ]
  ]
    where
      sound :
          (plain : String) (res : PipelineResult)
          → keys.decrypt_jwe env.result_jwe ≡ some plain
          → codec.decode_result plain ≡ some res
          → IsCorrupt env
          → ⊥
      sound plain res opened decoded (inl bad) = cc
      sound plain res opened decoded (inr (other, opened', bad)) = cc

  -- A delivery fails for good exactly if the result of the envelope does not decrypt or does not
  -- decode: no other failure, of the report, the signature, the request or the client's answer,
  -- is permanent.
  pub deliver-permanent_iff :
      (env : Envelope) → ((deliver codec keys doer env).outcome ≡ err permanent) ↔ IsCorrupt env
  unfolding deliver
  deliver-permanent_iff env = elim (build_payload-cases env) [
    | inl (corrupt, e) ↦ rw (deliver, e) ((λ h. corrupt), (λ c. refl))
    | inr (inl (e, sound)) ↦ rw (deliver, e) ((λ h. cc), (λ c. absurd (sound c)))
    | inr (inr (p, e, sound)) ↦
        rw (deliver, e)
          (
            (λ h. absurd (deliver_payload-not_permanent env.webhook_url env.correlation_id p h)),
            (λ c. absurd (sound c)),
          )
  ]
