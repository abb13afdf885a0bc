-- ===== src/Webhook/Deliverer.antt =====
-- internal/webhook/consumer.go: `Deliverer`, which builds, signs and posts one payload.
pub mod Permanence
use eudi_api_management.Base.{
  ℕ, String, Bool, ◌&&◌, Option, none, some, List, [], ◌∷◌, ltb, leb, ◌==◌, if◌then◌else◌,
}
use eudi_api_management.Base.Results.{Result, ok, err, ◌>>=◌, or_fail}
use eudi_api_management.Errors.{Error}
use eudi_api_management.Wire.{WebhookPayload, PipelineResult, Envelope, Codec, Keys}
use eudi_api_management.Results.{Mapped, map_result, map_embedded}
use eudi_api_management.Webhook.Signer.{sign_detached}

-- An error of Deliver; `permanent` is one that wraps ErrPermanentPayload.
pub data DeliveryError : Type 0 where
  permanent transient : DeliveryError

-- A POST: its URL, body, X-Payload-Signature and, if one is set, X-Correlation-ID.
pub record Post : Type 0 where
  pub url : String
  pub body : String
  pub signature : String
  pub correlation_id : Option String

-- The outbound HTTP client: whether a request can be built for a URL, and the status of the
-- response, `none` where there is none within the timeout.
pub record Doer : Type 0 where
  pub can_build : String → Bool
  pub send : Post → Option ℕ

-- What a delivery did: its error, if any, and the request that was sent, if one was.
pub record Delivery : Type 0 where
  pub outcome : Result DeliveryError Unit
  pub sent : List Post

unfoldable pub is_success : ℕ → Bool
is_success status = leb 200 status && ltb status 300

-- the result and the report of a payload; an error of the report is not a permanent one
unfoldable pub payload_of : Envelope → PipelineResult → Mapped → WebhookPayload
payload_of env res (report, failure) = record {
  session_id = env.session_id;
  state = res.outcome;
  report = report;
  result = if res.outcome == "verified" then some (map_result res) else none;
  failure = failure;
}

abbrev as_transient : {A : Type 0} → Result Error A → Result DeliveryError A
as_transient (ok a) = ok a
as_transient (err e) = err transient

abbrev pub answered : Post → Option ℕ → Delivery
answered post none = record { outcome = err transient; sent = post ∷ [] }
answered post (some status) = record {
  outcome = if is_success status then ok tt else err transient;
  sent = post ∷ [];
}

unfoldable pub post_of : String → String → String → String → Post
post_of url correlation_id body signature = record {
  url = url;
  body = body;
  signature = signature;
  correlation_id = if correlation_id == "" then none else some correlation_id;
}

abbrev unsent : DeliveryError → Delivery
unsent e = record { outcome = err e; sent = [] }

module _ (codec : Codec) (keys : Keys) (doer : Doer) where
  -- buildPayload
  unfoldable pub build_payload : Envelope → Result DeliveryError WebhookPayload
  unfolding payload_of
  build_payload env = do
    plain ← or_fail (keys.decrypt_jwe env.result_jwe) permanent
    res ← or_fail (codec.decode_result plain) permanent
    mapped ← as_transient (map_embedded codec "webhook: re-marshal embedded report" res.report)
    ok (payload_of env res mapped)

  -- the part of `send` after the signature
  unfoldable pub post_signed : String → String → String → String → Delivery
  unfolding is_success post_of
  post_signed url correlation_id body signature =
      if doer.can_build url
      then answered (post_of url correlation_id body signature)
          (doer.send (post_of url correlation_id body signature))
      else unsent transient

  -- send, and DeliverPayload
  unfoldable pub deliver_payload : String → String → WebhookPayload → Delivery
  unfolding post_signed
  deliver_payload url correlation_id payload = elim (codec.encode_payload payload) [
    | none ↦ unsent transient
    | some body ↦ elim (sign_detached keys body) [
      | none ↦ unsent transient
      | some signature ↦ post_signed url correlation_id body signature
    ]
  ]

  abbrev deliver_built : Envelope → Result DeliveryError WebhookPayload → Delivery
  deliver_built env (err e) = unsent e
  deliver_built env (ok payload) = deliver_payload env.webhook_url env.correlation_id payload

  -- Deliver
  unfoldable pub deliver : Envelope → Delivery
  unfolding build_payload deliver_payload
  deliver env = deliver_built env (build_payload env)
