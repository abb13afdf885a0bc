-- ===== src/Webhook/Sweeper/Notices.antt =====
-- Whom a sweep notifies.
use eudi_api_management.Base.{
  ℕ, String, ◌≡◌, refl, ap, sym, ◌∙◌, true, Option, none, some, inl, inr, List, [], ◌∷◌, ◌++◌, ◌==◌,
  Bool-cases, if◌then◌else◌,
}
use eudi_api_management.Base.Results.{ok}
use eudi_api_management.SessionDb.{ExpiredSession, Store}
use eudi_api_management.Wire.{WebhookPayload, Codec, Keys}
use eudi_api_management.Webhook.Signer.{sign_detached}
use eudi_api_management.Webhook.Deliverer.{
  Post, Doer, answered, post_of, deliver_payload, post_signed,
}
use eudi_api_management.Webhook.Sweeper.{Sweep, notify, notify_all, sweep_once}

abbrev urls : List Post → List String
urls [] = []
urls (p ∷ ps) = p.url ∷ urls ps

urls-append : (ps qs : List Post) → urls (ps ++ qs) ≡ urls ps ++ urls qs
urls-append [] qs = refl
urls-append (p ∷ ps) qs = ap (λ us. p.url ∷ us) (urls-append ps qs)

answered-urls : (post : Post) (o : Option ℕ) → urls (answered post o).sent ≡ post.url ∷ []
answered-urls post none = refl
answered-urls post (some status) = refl

append_assoc : (xs ys zs : List String) → (xs ++ ys) ++ zs ≡ xs ++ (ys ++ zs)
append_assoc [] ys zs = refl
append_assoc (x ∷ xs) ys zs = ap (λ us. x ∷ us) (append_assoc xs ys zs)

append-nil : (xs : List String) → xs ++ [] ≡ xs
append-nil [] = refl
append-nil (x ∷ xs) = ap (λ us. x ∷ us) (append-nil xs)

-- the webhooks of the sessions that have one
abbrev hooks : List ExpiredSession → List String
hooks [] = []
hooks (e ∷ es) = let rest = hooks es in if e.webhook_url == "" then rest else e.webhook_url ∷ rest

module _ {S : Type 0} (store : Store S) (codec : Codec) (keys : Keys) (doer : Doer)
    (encodes : (p : WebhookPayload) → (body : String) × (codec.encode_payload p ≡ some body))
    (signs : (body : String) → (signature : String) × (sign_detached keys body ≡ some signature))
    (builds : (url : String) → doer.can_build url ≡ true) where
  deliver_payload-urls :
      (url correlation_id : String) (p : WebhookPayload)
      → urls (deliver_payload codec keys doer url correlation_id p).sent ≡ url ∷ []
  unfolding deliver_payload post_signed post_of
  deliver_payload-urls url correlation_id p =
      let (body, encoded) = encodes p in
      let (signature, signed) = signs body in
      rw (deliver_payload, encoded, signed, post_signed, builds url)
        (answered-urls (post_of url correlation_id body signature)
          (doer.send (post_of url correlation_id body signature)))

  notify_all-urls :
      (es : List ExpiredSession) (w : Sweep S)
      → urls (notify_all store codec keys doer es w).posts ≡ urls w.posts ++ hooks es
  unfolding notify_all notify
  notify_all-urls [] w = sym (append-nil (urls w.posts))
  notify_all-urls (e ∷ es) w = elim (Bool-cases (e.webhook_url == "")) [
    | inl bare ↦ rw (notify_all, notify, bare) (notify_all-urls es w)
    | inr hooked ↦
        rw (notify_all, notify, hooked)
          (notify_all-urls es _
            ∙ ap (λ us. us ++ hooks es)
                (urls-append w.posts _
                  ∙ ap (λ us. urls w.posts ++ us)
                      (deliver_payload-urls e.webhook_url e.correlation_id _))
            ∙ append_assoc (urls w.posts) (e.webhook_url ∷ []) (hooks es))
  ]

  -- Where payloads encode and sign and requests can be built, a sweep that finds expired sessions
  -- posts once to the webhook of each of them, in their order, passes over sessions without a
  -- webhook, and goes on whatever the answers are.
  sweep_once-notifies :
      (limit : ℕ) (w : Sweep S) (es : List ExpiredSession)
      → (store.expire_due limit w.db).0 ≡ ok es
      → urls (sweep_once store codec keys doer limit w).posts ≡ urls w.posts ++ hooks es
  unfolding sweep_once
  sweep_once-notifies limit w es h =
      rw (sweep_once, h)
        (notify_all-urls es (record { db = (store.expire_due limit w.db).1; posts = w.posts }))
