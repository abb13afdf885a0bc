-- ===== src/SessionDb/Pg/Refines.antt =====
-- The production store answers as the in-memory store does, over a database that serves the calls.
use eudi_api_management.Base.{
  ℕ, String, ◌≡◌, refl, inl, inr, List, [], ◌∷◌, ◌==◌, eq_iff, Bool-cases, Option, some, Bool, true,
  false,
}
use eudi_api_management.Base.Results.{Result}
use eudi_api_management.Base.Simulation.{trace, Agrees, Served, tagged-Agrees, simulates}
use eudi_api_management.Errors.{Error, Kit}
use eudi_api_management.Procedures.{Decoder, Database, command, query, invoke}
use eudi_api_management.Procedures.Protocol.{
  Conforms, IsAnything, IsRowOf, command-Answers, query-Answers, invoke-Conforms,
}
use eudi_api_management.SessionDb
use eudi_api_management.SessionDb.{Fake, ExpiredSession, Session, is_open}
use eudi_api_management.Base.Dict.{lookup}
use eudi_api_management.SessionDb.Lifecycle.{run-terminal}
use eudi_api_management.SessionDb.Expire
use eudi_api_management.SessionDb.Expire.{fake_store}
use eudi_api_management.SessionDb.Calls.{
  Call, gets, cancels, reports, redeems, sets_webhook, sweeps, after, run, Outcome, shows, done,
  report, batch, call_store,
}
use eudi_api_management.SessionDb.Pg
use eudi_api_management.SessionDb.Pg.{
  Argument, text, number, Arguments, Rows, scoped, webhook_arguments, pg_store,
  proc_get_session_for_client, proc_cancel_session, proc_get_report_for_client,
  proc_mark_code_redeemed, proc_set_webhook_state, proc_expire_due_sessions,
}

abbrev pub in_memory : Kit → ℕ × Call → Fake → Outcome × Fake
in_memory kit (now, c) = call_store (fake_store kit now) c

-- The state at the end of a trace of the in-memory store is the one that `run` gives.
trace-run :
    (kit : Kit) (cs : List (ℕ × Call)) (f : Fake) → (trace (in_memory kit) cs f).1 ≡ run kit f cs
unfolding trace run after call_store
trace-run kit [] f = refl
trace-run kit ((now, gets client_id id) ∷ cs) f = trace-run kit cs _
trace-run kit ((now, cancels client_id id) ∷ cs) f = trace-run kit cs _
trace-run kit ((now, reports client_id id) ∷ cs) f = trace-run kit cs _
trace-run kit ((now, redeems client_id id) ∷ cs) f = trace-run kit cs _
trace-run kit ((now, sets_webhook id state code) ∷ cs) f = trace-run kit cs _
trace-run kit ((now, sweeps limit) ∷ cs) f = trace-run kit cs _

module _ {S : Type 0} (kit : Kit) (decode : Decoder) (rows : Rows) (db : ℕ → Database Arguments S)
    (view : S → Fake) where
  abbrev ServesCommand : ℕ → String → Arguments → S → Result Error (Unit {0}) × Fake → Type 0
  ServesCommand now procedure arguments s =
      Conforms kit decode IsAnything (db now) view procedure arguments s

  abbrev ServesQuery :
      {R : Type 0}
      → (String → Option R)
      → ℕ
      → String
      → Arguments
      → S
      → Result Error R × Fake
      → Type 0
  ServesQuery decode_row now procedure arguments s =
      Conforms kit decode (IsRowOf decode_row) (db now) view procedure arguments s

  -- without an error code, and with one
  abbrev ServesWebhook : Bool → ℕ → String → String → String → S → Type 0
  ServesWebhook true now id state code s =
      ServesCommand now proc_set_webhook_state (("id", text id) ∷ ("state", text state) ∷ []) s
        (SessionDb.set_webhook_state kit now id state "" (view s))
  ServesWebhook false now id state code s =
      ServesCommand now proc_set_webhook_state
        (("id", text id) ∷ ("state", text state) ∷ ("error_code", text code) ∷ []) s
        (SessionDb.set_webhook_state kit now id state code (view s))

  -- The procedure of a call answers, from this state, what the in-memory store answers.
  abbrev pub Serves : ℕ × Call → S → Type 0
  Serves (now, gets client_id id) s =
      ServesQuery rows.decode_session now proc_get_session_for_client (scoped client_id id) s
        (SessionDb.get_for_client kit now client_id id (view s))
  Serves (now, cancels client_id id) s =
      ServesCommand now proc_cancel_session (scoped client_id id) s
        (SessionDb.cancel kit now client_id id (view s))
  Serves (now, reports client_id id) s =
      ServesQuery rows.decode_report now proc_get_report_for_client (scoped client_id id) s
        (SessionDb.get_report_for_client kit now client_id id (view s))
  Serves (now, redeems client_id id) s =
      ServesCommand now proc_mark_code_redeemed (scoped client_id id) s
        (SessionDb.mark_code_redeemed kit now client_id id (view s))
  Serves (now, sets_webhook id state code) s = ServesWebhook (code == "") now id state code s
  Serves (now, sweeps limit) s =
      ServesQuery rows.decode_expired now proc_expire_due_sessions (("limit", number limit) ∷ []) s
        (Expire.expire_due now limit (view s))

  abbrev pub production : ℕ × Call → S → Outcome × S
  production (now, c) = call_store (pg_store kit decode rows (db now)) c

  command-Agrees :
      (now : ℕ) (procedure : String) (arguments : Arguments) (s : S)
      (outcome : Result Error (Unit {0}) × Fake)
      → ServesCommand now procedure arguments s outcome
      → Agrees view (invoke (command kit decode) (db now) procedure arguments s) outcome
  command-Agrees now procedure arguments s outcome h =
      invoke-Conforms kit decode IsAnything (command kit decode) (command-Answers kit decode)
        (db now) view procedure arguments s outcome h

  query-Agrees :
      {R : Type 0} (decode_row : String → Option R) (now : ℕ) (procedure : String)
      (arguments : Arguments) (s : S) (outcome : Result Error R × Fake)
      → ServesQuery decode_row now procedure arguments s outcome
      → Agrees view (invoke (query decode_row kit decode) (db now) procedure arguments s) outcome
  query-Agrees decode_row now procedure arguments s outcome h =
      invoke-Conforms kit decode (IsRowOf decode_row) (query decode_row kit decode)
        (query-Answers kit decode decode_row) (db now) view procedure arguments s outcome h

  webhook-Agrees :
      (now : ℕ) (id state code : String) (s : S)
      → Serves (now, sets_webhook id state code) s
      → Agrees view
          (Pg.set_webhook_state kit decode rows (db now) id state code s)
          (SessionDb.set_webhook_state kit now id state code (view s))
  unfolding Pg.set_webhook_state
  webhook-Agrees now id state code s h = elim (Bool-cases (code == "")) [
    | inl e ↦
        let none_given = (eq_iff code "").0 e in
        rw none_given (command-Agrees now _ _ s _ (rw e at h))
    | inr e ↦ rw e (command-Agrees now _ _ s _ (rw e at h))
  ]

  -- One call that is served answers as the in-memory store does.
  call_store-Agrees :
      (c : ℕ × Call) (s : S) → Serves c s → Agrees view (production c s) (in_memory kit c (view s))
  unfolding call_store Pg.get_for_client Pg.cancel Pg.get_report_for_client Pg.mark_code_redeemed
      Pg.expire_due
  call_store-Agrees (now, gets client_id id) s h =
      tagged-Agrees view shows _ _ (query-Agrees rows.decode_session now _ _ s _ h)
  call_store-Agrees (now, cancels client_id id) s h =
      tagged-Agrees view done _ _ (command-Agrees now _ _ s _ h)
  call_store-Agrees (now, reports client_id id) s h =
      tagged-Agrees view report _ _ (query-Agrees rows.decode_report now _ _ s _ h)
  call_store-Agrees (now, redeems client_id id) s h =
      tagged-Agrees view done _ _ (command-Agrees now _ _ s _ h)
  call_store-Agrees (now, sets_webhook id state code) s h =
      tagged-Agrees view done _ _ (webhook-Agrees now id state code s h)
  call_store-Agrees (now, sweeps limit) s h =
      tagged-Agrees view batch _ _ (query-Agrees rows.decode_expired now _ _ s _ h)

  -- Over a database whose procedures answer each call of a sequence, in the envelope protocol, with
  -- what the in-memory store answers it, the production store gives the same answers to the whole
  -- sequence, and leaves the database in a state that is seen as the in-memory store's.
  pub trace-refines :
      (cs : List (ℕ × Call)) (s : S)
      → Served view production (in_memory kit) Serves cs s
      → Agrees view (trace production cs s) (trace (in_memory kit) cs (view s))
  trace-refines cs s h = simulates view production (in_memory kit) Serves call_store-Agrees cs s h

  -- Over such a database a session that has reached a terminal state keeps it through any sequence
  -- of calls of the production store.
  trace-terminal :
      (cs : List (ℕ × Call)) (s : S)
      → Served view production (in_memory kit) Serves cs s
      → (id : String) (t : Session) → lookup id (view s).sessions ≡ some t
      → is_open t.status ≡ false
      → (u : Session) × (lookup id (view (trace production cs s).1).sessions ≡ some u)
        × (u.status ≡ t.status)
  trace-terminal cs s h id t there over =
      rw ((trace-refines cs s h).1, trace-run kit cs (view s))
        (run-terminal kit (view s) cs id t there over)
