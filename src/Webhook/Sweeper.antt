-- ===== src/Webhook/Sweeper.antt =====
-- internal/webhook/sweeper.go: `Sweeper`, the notice of expired sessions.
pub mod Notices
use eudi_api_management.Base.{
  ℕ, String, Option, none, some, List, [], ◌∷◌, ◌++◌, ◌==◌, if◌then◌else◌,
}
use eudi_api_management.Base.Results.{Result, ok, err}
use eudi_api_management.Errors.{Error}
use eudi_api_management.SessionDb.{ExpiredSession, Store}
use eudi_api_management.Wire.{WebhookPayload, Codec, Keys}
use eudi_api_management.Results.{Mapped, map_report}
use eudi_api_management.Webhook.Deliverer.{Post, Doer, deliver_payload}

pub record Sweep (S : Type 0) : Type 0 where
  pub db : S
  pub posts : List Post

abbrev bare_notice : String → WebhookPayload
bare_notice id = record {
  session_id = id;
  state = "expired";
  report = none;
  result = none;
  failure = none;
}

abbrev with_mapped : String → Result Error Mapped → WebhookPayload
with_mapped id (err e) = bare_notice id
with_mapped id (ok (report, failure)) = record (bare_notice id) {
  report = report;
  failure = failure;
}

-- the payload of `notify`; a report that cannot be read or mapped is left out
unfoldable notice : Codec → String → Result Error String → WebhookPayload
unfolding map_report
notice codec id (err e) = bare_notice id
notice codec id (ok raw) =
    if raw == "" then bare_notice id else with_mapped id (map_report codec raw)

module _ {S : Type 0} (store : Store S) (codec : Codec) (keys : Keys) (doer : Doer) where
  -- notify
  unfoldable pub notify : ExpiredSession → Sweep S → Sweep S
  unfolding notice
  notify exp w =
      if exp.webhook_url == ""
      then w
      else let (raw, db') = store.get_report_for_client exp.client_id exp.id w.db in
        let d =
          deliver_payload codec keys doer exp.webhook_url exp.correlation_id
            (notice codec exp.id raw) in
        record { db = db'; posts = w.posts ++ d.sent }

  unfoldable pub notify_all : List ExpiredSession → Sweep S → Sweep S
  unfolding notify
  notify_all [] w = w
  notify_all (exp ∷ exps) w = notify_all exps (notify exp w)

  abbrev notify_expired : Result Error (List ExpiredSession) × S → List Post → Sweep S
  notify_expired (err e, db) posts = record { db = db; posts = posts }
  notify_expired (ok exps, db) posts = notify_all exps (record { db = db; posts = posts })

  -- runOnce
  unfoldable pub sweep_once : ℕ → Sweep S → Sweep S
  unfolding notify_all
  sweep_once limit w = notify_expired (store.expire_due limit w.db) w.posts
