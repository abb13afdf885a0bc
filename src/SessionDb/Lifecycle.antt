-- ===== src/SessionDb/Lifecycle.antt =====
-- The store over any sequence of operations: what never changes, and which statuses follow which.
use eudi_api_management.Base.{
  ℕ, String, ◌≡◌, refl, inl, inr, true, false, none, some, Option, List, [], ◌∷◌, arith, leb,
  length, Bool-cases, Option-cases,
}
use eudi_api_management.Base.Dict.{lookup, keys}
use eudi_api_management.Errors.{Kit}
use eudi_api_management.SessionDb.{
  Session, Fake, is_open, is_due, lazily_expire, owned, get_for_client, cancel_open, cancel,
  get_report_for_client, redeem, mark_code_redeemed, valid_webhook_state, set_webhook_state,
}
use eudi_api_management.SessionDb.Evolution.{
  StatusStep, Evolves, Evolves-refl, Evolves-trans, Carries, Carries-refl, Carries-trans,
  insert-Carries,
}
use eudi_api_management.SessionDb.Expire.{
  Batch, sort_strings, expire, expire_one, expire_loop, expire_due,
}
use eudi_api_management.SessionDb.Calls.{
  Call, gets, cancels, reports, redeems, sets_webhook, sweeps, after, run,
}

expire-Evolves : (now : ℕ) (s : Session) → is_open s.status ≡ true → Evolves s (expire now s)
unfolding expire
expire-Evolves now s o = record {
  owner = refl;
  flow = refl;
  deadline = refl;
  status = inr (o, inl refl);
  redeemed = λ _. refl;
}

is_open_of_is_due : (now : ℕ) (s : Session) → is_due now s ≡ true → is_open s.status ≡ true
unfolding is_due is_open
is_open_of_is_due now s h = ground arith

pub lazily_expire-Evolves : (now : ℕ) (s : Session) → Evolves s (lazily_expire now s)
unfolding lazily_expire expire
lazily_expire-Evolves now s = elim (Bool-cases (is_due now s)) [
  | inl due ↦ rw due (expire-Evolves now s (is_open_of_is_due now s due))
  | inr early ↦ rw early (Evolves-refl s)
]

redeem-Evolves :
    (kit : Kit) (now : ℕ) (s : Session) (o : Option ℕ)
    → s.code_redeemed_at ≡ o
    → Evolves s (redeem kit now o s)
redeem-Evolves kit now s none e = record {
  owner = refl;
  flow = refl;
  deadline = refl;
  status = inl refl;
  redeemed = λ h. absurd (h e);
}
redeem-Evolves kit now s (some t) e = Evolves-refl s

cancelled-Evolves :
    (now : ℕ) (s : Session)
    → is_open s.status ≡ true
    → Evolves s (record s { status = "cancelled"; updated_at = now })
cancelled-Evolves now s o = record {
  owner = refl;
  flow = refl;
  deadline = refl;
  status = inr (o, inr refl);
  redeemed = λ _. refl;
}

webhook-Evolves : (state : String) (s : Session) → Evolves s (record s { webhook_state = state })
webhook-Evolves state s = record {
  owner = refl;
  flow = refl;
  deadline = refl;
  status = inl refl;
  redeemed = λ _. refl;
}

owned-eq-some :
    (client_id : String) (o : Option Session) {s : Session}
    → owned client_id o ≡ some s
    → o ≡ some s
unfolding owned
owned-eq-some client_id none e = e
owned-eq-some client_id (some s) e = ground arith

-- The sessions of a store after an operation that found and rewrote one of them, or none.
module _ (kit : Kit) (now : ℕ) where
  get_for_client-Carries :
      (client_id id : String) (f : Fake)
      → Carries f.sessions (get_for_client kit now client_id id f).1.sessions
  unfolding get_for_client
  get_for_client-Carries client_id id f =
      elim (Option-cases (owned client_id (lookup id f.sessions))) [
        | inl e ↦ rw (e, get_for_client) (Carries-refl f.sessions)
        | inr (s, e) ↦
            rw (e, get_for_client)
              (insert-Carries f.sessions id s (lazily_expire now s) (owned-eq-some client_id _ e)
                (lazily_expire-Evolves now s))
      ]

  cancel_open-Carries :
      (id : String) (r s : Session) (f : Fake)
      → lookup id f.sessions ≡ some r
      → Evolves r s
      → Carries f.sessions (cancel_open kit now id s f).1.sessions
  unfolding cancel_open
  cancel_open-Carries id r s f e step = elim (Bool-cases (is_open s.status)) [
    | inl o ↦
        rw o (insert-Carries f.sessions id r _ e (Evolves-trans step (cancelled-Evolves now s o)))
    | inr c ↦ rw c (insert-Carries f.sessions id r s e step)
  ]

  cancel-Carries :
      (client_id id : String) (f : Fake)
      → Carries f.sessions (cancel kit now client_id id f).1.sessions
  unfolding cancel
  cancel-Carries client_id id f = elim (Option-cases (owned client_id (lookup id f.sessions))) [
    | inl e ↦ rw (e, cancel) (Carries-refl f.sessions)
    | inr (s, e) ↦
        rw (e, cancel)
          (cancel_open-Carries id s (lazily_expire now s) f (owned-eq-some client_id _ e)
            (lazily_expire-Evolves now s))
  ]

  report-Carries :
      (client_id id : String) (f : Fake)
      → Carries f.sessions (get_report_for_client kit now client_id id f).1.sessions
  unfolding get_report_for_client
  report-Carries client_id id f = elim (Option-cases (owned client_id (lookup id f.sessions))) [
    | inl e ↦ rw (e, get_report_for_client) (Carries-refl f.sessions)
    | inr (s, e) ↦ elim (Option-cases (lookup id f.reports)) [
      | inl n ↦ rw (e, n, get_report_for_client) (Carries-refl f.sessions)
      | inr (r, n) ↦ rw (e, n, get_report_for_client) (Carries-refl f.sessions)
    ]
  ]

  mark_code_redeemed-Carries :
      (client_id id : String) (f : Fake)
      → Carries f.sessions (mark_code_redeemed kit now client_id id f).1.sessions
  unfolding mark_code_redeemed
  mark_code_redeemed-Carries client_id id f =
      elim (Option-cases (owned client_id (lookup id f.sessions))) [
        | inl e ↦ rw (e, mark_code_redeemed) (Carries-refl f.sessions)
        | inr (s, e) ↦
            rw (e, mark_code_redeemed)
              (insert-Carries f.sessions id s _ (owned-eq-some client_id _ e)
                (redeem-Evolves kit now s s.code_redeemed_at refl))
      ]

  set_webhook_state-Carries :
      (id state code : String) (f : Fake)
      → Carries f.sessions (set_webhook_state kit now id state code f).1.sessions
  unfolding set_webhook_state
  set_webhook_state-Carries id state code f = elim (Bool-cases (valid_webhook_state state)) [
    | inr bad ↦ rw bad (Carries-refl f.sessions)
    | inl good ↦ elim (Option-cases (lookup id f.sessions)) [
      | inl e ↦ rw (good, e, set_webhook_state) (Carries-refl f.sessions)
      | inr (s, e) ↦
          rw (good, e, set_webhook_state)
            (insert-Carries f.sessions id s _ e (webhook-Evolves state s))
    ]
  ]

expire_one-Carries :
    (now : ℕ) (id : String) (b : Batch)
    → Carries b.store.sessions (expire_one now id (lookup id b.store.sessions) b).store.sessions
unfolding expire_one
expire_one-Carries now id b = elim (Option-cases (lookup id b.store.sessions)) [
  | inl e ↦ rw (e, expire_one) (Carries-refl b.store.sessions)
  | inr (s, e) ↦ elim (Bool-cases (is_due now s)) [
    | inl due ↦
        rw (e, expire_one, due)
          (insert-Carries b.store.sessions id s (expire now s) e
            (expire-Evolves now s (is_open_of_is_due now s due)))
    | inr early ↦ rw (e, expire_one, early) (Carries-refl b.store.sessions)
  ]
]

expire_loop-Carries :
    (now limit : ℕ) (ids : List String) (b : Batch)
    → Carries b.store.sessions (expire_loop now limit ids b).store.sessions
unfolding expire_loop
expire_loop-Carries now limit [] b = Carries-refl b.store.sessions
expire_loop-Carries now limit (id ∷ ids) b = elim (Bool-cases (leb limit (length b.out))) [
  | inl full ↦ rw full (Carries-refl b.store.sessions)
  | inr room ↦ rw room (
      Carries-trans b.store.sessions
        (expire_one now id (lookup id b.store.sessions) b).store.sessions _
        (expire_one-Carries now id b) (expire_loop-Carries now limit ids _))
]

expire_due-Carries :
    (now limit : ℕ) (f : Fake) → Carries f.sessions (expire_due now limit f).1.sessions
unfolding expire_due
expire_due-Carries now limit f = expire_loop-Carries now limit (sort_strings (keys f.sessions)) _

after-Carries : (kit : Kit) (f : Fake) (c : ℕ × Call) → Carries f.sessions (after kit f c).sessions
unfolding after
after-Carries kit f (now, gets client_id id) = get_for_client-Carries kit now client_id id f
after-Carries kit f (now, cancels client_id id) = cancel-Carries kit now client_id id f
after-Carries kit f (now, reports client_id id) = report-Carries kit now client_id id f
after-Carries kit f (now, redeems client_id id) = mark_code_redeemed-Carries kit now client_id id f
after-Carries kit f (now, sets_webhook id state code) =
    set_webhook_state-Carries kit now id state code f
after-Carries kit f (now, sweeps limit) = expire_due-Carries now limit f

-- Over any sequence of calls at any instants, a stored session stays stored, keeps its owner, its
-- flow and its deadline, changes its status at most from open to expired or cancelled, and keeps a
-- redemption instant that it has.
pub run-Carries :
    (kit : Kit) (f : Fake) (cs : List (ℕ × Call)) → Carries f.sessions (run kit f cs).sessions
unfolding run
run-Carries kit f [] = Carries-refl f.sessions
run-Carries kit f (c ∷ cs) =
    Carries-trans f.sessions (after kit f c).sessions (run kit (after kit f c) cs).sessions
      (after-Carries kit f c) (run-Carries kit (after kit f c) cs)

status_of_terminal : (s t : String) → is_open s ≡ false → StatusStep s t → t ≡ s
status_of_terminal s t closed (inl e) = e
status_of_terminal s t closed (inr (o, _)) = cc

-- A session whose status is not open has the same status after any sequence of calls.
pub run-terminal :
    (kit : Kit) (f : Fake) (cs : List (ℕ × Call)) (id : String) (s : Session)
    → lookup id f.sessions ≡ some s
    → is_open s.status ≡ false
    → (t : Session) × (lookup id (run kit f cs).sessions ≡ some t) × (t.status ≡ s.status)
run-terminal kit f cs id s e closed =
    let (t, found, step) = run-Carries kit f cs id s e in
    (t, found, status_of_terminal s.status t.status closed step.status)
