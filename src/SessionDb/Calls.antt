-- ===== src/SessionDb/Calls.antt =====
-- Sequences of calls of the session store.
use eudi_api_management.Base.{ℕ, String, List, [], ◌∷◌}
use eudi_api_management.Base.Results.{Result}
use eudi_api_management.Base.Simulation.{tagged}
use eudi_api_management.Errors.{Error, Kit}
use eudi_api_management.SessionDb.{
  Session, ExpiredSession, Store, Fake, get_for_client, cancel, get_report_for_client,
  mark_code_redeemed, set_webhook_state,
}
use eudi_api_management.SessionDb.Expire.{expire_due}

-- One call of the store, with the instant at which it is made.
pub data Call : Type 0 where
  gets cancels reports redeems : String → String → Call
  sets_webhook : String → String → String → Call
  sweeps : ℕ → Call

unfoldable pub after : Kit → Fake → ℕ × Call → Fake
after kit f (now, gets client_id id) = (get_for_client kit now client_id id f).1
after kit f (now, cancels client_id id) = (cancel kit now client_id id f).1
after kit f (now, reports client_id id) = (get_report_for_client kit now client_id id f).1
after kit f (now, redeems client_id id) = (mark_code_redeemed kit now client_id id f).1
after kit f (now, sets_webhook id state code) = (set_webhook_state kit now id state code f).1
after kit f (now, sweeps limit) = (expire_due now limit f).1

unfoldable pub run : Kit → Fake → List (ℕ × Call) → Fake
unfolding after
run kit f [] = f
run kit f (c ∷ cs) = run kit (after kit f c) cs

-- What a call of a store answers.
pub data Outcome : Type 0 where
  shows : Result Error Session → Outcome
  done : Result Error Unit → Outcome
  report : Result Error String → Outcome
  batch : Result Error (List ExpiredSession) → Outcome

-- a call through the interface
unfoldable pub call_store : {S : Type 0} → Store S → Call → S → Outcome × S
call_store store (gets client_id id) s = tagged shows (store.get_for_client client_id id s)
call_store store (cancels client_id id) s = tagged done (store.cancel client_id id s)
call_store store (reports client_id id) s =
    tagged report (store.get_report_for_client client_id id s)
call_store store (redeems client_id id) s = tagged done (store.mark_code_redeemed client_id id s)
call_store store (sets_webhook id state code) s =
    tagged done (store.set_webhook_state id state code s)
call_store store (sweeps limit) s = tagged batch (store.expire_due limit s)
