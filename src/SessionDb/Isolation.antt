-- ===== src/SessionDb/Isolation.antt =====
-- What one client can see and change: ownership checks of internal/sessiondb/fake.go.
use eudi_api_management.Base.{
  ℕ, String, ◌≡◌, refl, sym, ◌∙◌, ap, subst, ◌≢◌, inl, inr, false, none, some, Option, List, arith,
  eq_iff, ◌==◌, ==-eq-false_of_ne, Bool-cases, Option-cases, some-inj,
}
use eudi_api_management.Base.Results.{ok}
use eudi_api_management.Base.Dict.{lookup, insert, lookup-insert, lookup-insert_self}
use eudi_api_management.Errors.{Kit, refuse}
use eudi_api_management.SessionDb.{
  Session, Fake, is_open, is_due, lazily_expire, owned, get_for_client, cancel_open, cancel,
  get_report_for_client, redeem, mark_code_redeemed,
}
use eudi_api_management.SessionDb.Calls.{Call, run}
use eudi_api_management.SessionDb.Lifecycle.{run-Carries, lazily_expire-Evolves}
use eudi_api_management.SessionDb.Sweep.{lazily_expire-not_due}

-- The client owns nothing under the id: another client does, or nobody.
abbrev pub IsForeign : String → String → Fake → Type 0
IsForeign client_id id f = (s : Session) → lookup id f.sessions ≡ some s → s.client_id ≢ client_id

owned-eq-none :
    (client_id : String) (o : Option Session)
    → ((s : Session) → o ≡ some s → s.client_id ≢ client_id)
    → owned client_id o ≡ none
unfolding owned
owned-eq-none client_id none h = refl
owned-eq-none client_id (some s) h = rw (==-eq-false_of_ne s.client_id client_id (h s refl))

owned_inv :
    (client_id : String) (o : Option Session) {s : Session}
    → owned client_id o ≡ some s
    → (o ≡ some s) × (s.client_id ≡ client_id)
unfolding owned
owned_inv client_id none e = cc
owned_inv client_id (some r) {s} e = elim (Bool-cases (r.client_id == client_id)) [
  | inl mine ↦
      let same : r ≡ s = ground arith in
      (ap some same, subst (λ x. x.client_id ≡ client_id) same ((eq_iff _ _).0 mine))
  | inr other ↦ ground arith
]

module _ (kit : Kit) (now : ℕ) (client_id id : String) (f : Fake) where
  -- Reading, cancelling, reading the report and redeeming a session that the client does not own
  -- all answer `session:not_found` and leave the store as it was, whether the session is another
  -- client's or does not exist.
  pub foreign_refused :
      IsForeign client_id id f
      → (get_for_client kit now client_id id f ≡ (refuse kit "session:not_found", f))
        × (cancel kit now client_id id f ≡ (refuse kit "session:not_found", f))
        × (get_report_for_client kit now client_id id f ≡ (refuse kit "session:not_found", f))
        × (mark_code_redeemed kit now client_id id f ≡ (refuse kit "session:not_found", f))
  unfolding get_for_client cancel get_report_for_client mark_code_redeemed
  foreign_refused h =
      let e = owned-eq-none client_id (lookup id f.sessions) h in
      (
        rw (e, get_for_client),
        rw (e, cancel),
        rw (e, get_report_for_client),
        rw (e, mark_code_redeemed),
      )

  -- A session that is read belongs to the client, is not an open one past its deadline, and is
  -- what the store then holds.
  get_for_client-ok :
      (s : Session)
      → (get_for_client kit now client_id id f).0 ≡ ok s
      → (s.client_id ≡ client_id)
        × (is_due now s ≡ false)
        × (lookup id (get_for_client kit now client_id id f).1.sessions ≡ some s)
  unfolding get_for_client
  get_for_client-ok s e = elim (Option-cases (owned client_id (lookup id f.sessions))) [
    | inl n ↦ cc (rw (n, get_for_client) at e)
    | inr (r, n) ↦
        let (there, mine) = owned_inv client_id (lookup id f.sessions) n in
        let same : lazily_expire now r ≡ s = ground arith in
        rw (n, get_for_client)
          (
            subst (λ x. x.client_id ≡ client_id) same ((lazily_expire-Evolves now r).owner ∙ mine),
            subst (λ x. is_due now x ≡ false) same (lazily_expire-not_due now r),
            lookup-insert_self id (lazily_expire now r) f.sessions ∙ ap some same,
          )
  ]

  other_key :
      (m : String) (r s : Session)
      → owned client_id (lookup id f.sessions) ≡ some r
      → lookup m f.sessions ≡ some s
      → s.client_id ≢ client_id
      → (id == m) ≡ false
  other_key m r s found e foreign = elim (Bool-cases (id == m)) [
    | inr differ ↦ differ
    | inl same ↦
        let (there, mine) = owned_inv client_id (lookup id f.sessions) found in
        let one : r ≡ s =
          some-inj (sym there ∙ ap (λ k. lookup k f.sessions) ((eq_iff id m).0 same) ∙ e) in
        absurd (foreign (subst (λ x. x.client_id ≡ client_id) one mine))
  ]

  kept :
      (m : String) (r s t : Session)
      → owned client_id (lookup id f.sessions) ≡ some r
      → lookup m f.sessions ≡ some s
      → s.client_id ≢ client_id
      → lookup m (insert id t f.sessions) ≡ some s
  kept m r s t found e foreign =
      rw (lookup-insert id m t f.sessions, other_key m r s found e foreign) e

  cancel_open-kept :
      (m : String) (r s t : Session)
      → owned client_id (lookup id f.sessions) ≡ some r
      → lookup m f.sessions ≡ some s
      → s.client_id ≢ client_id
      → lookup m (cancel_open kit now id t f).1.sessions ≡ some s
  unfolding cancel_open
  cancel_open-kept m r s t found e foreign = elim (Bool-cases (is_open t.status)) [
    | inl o ↦ rw o (kept m r s _ found e foreign)
    | inr c ↦ rw c (kept m r s _ found e foreign)
  ]

  -- None of the four operations of a client changes a session of another client.
  others_untouched :
      (m : String) (s : Session)
      → lookup m f.sessions ≡ some s
      → s.client_id ≢ client_id
      → (lookup m (get_for_client kit now client_id id f).1.sessions ≡ some s)
        × (lookup m (cancel kit now client_id id f).1.sessions ≡ some s)
        × (lookup m (get_report_for_client kit now client_id id f).1.sessions ≡ some s)
        × (lookup m (mark_code_redeemed kit now client_id id f).1.sessions ≡ some s)
  unfolding get_for_client cancel get_report_for_client mark_code_redeemed
  others_untouched m s e foreign = elim (Option-cases (owned client_id (lookup id f.sessions))) [
    | inl n ↦ (
      rw (n, get_for_client) e,
      rw (n, cancel) e,
      rw (n, get_report_for_client) e,
      rw (n, mark_code_redeemed) e,
    )
    | inr (r, n) ↦ (
      rw (n, get_for_client) (kept m r s _ n e foreign),
      rw (n, cancel) (cancel_open-kept m r s _ n e foreign),
      elim (Option-cases (lookup id f.reports)) [
        | inl none_yet ↦ rw (n, none_yet, get_report_for_client) e
        | inr (report, there) ↦ rw (n, there, get_report_for_client) e
      ],
      rw (n, mark_code_redeemed) (kept m r s _ n e foreign),
    )
  ]

  redeem-set :
      (s : Session) (o : Option ℕ)
      → s.code_redeemed_at ≡ o
      → (t : ℕ) × ((redeem kit now o s).code_redeemed_at ≡ some t)
  redeem-set s none e = (now, refl)
  redeem-set s (some t) e = (t, e)

  -- After a redemption that succeeds the session has a redemption instant, and every later
  -- sequence of calls leaves it that instant.
  pub mark_code_redeemed-sticky :
      (mark_code_redeemed kit now client_id id f).0 ≡ ok tt
      → (t : ℕ) × ((cs : List (ℕ × Call))
          → (s : Session) × (lookup id
                (run kit (mark_code_redeemed kit now client_id id f).1 cs).sessions
              ≡ some s)
            × (s.code_redeemed_at ≡ some t))
  unfolding mark_code_redeemed
  mark_code_redeemed-sticky e = elim (Option-cases (owned client_id (lookup id f.sessions))) [
    | inl n ↦ cc (rw (n, mark_code_redeemed) at e)
    | inr (r, n) ↦
        let (t, set) = redeem-set r r.code_redeemed_at refl in
        (t, λ cs. rw (n, mark_code_redeemed) (after_redeem t r set cs))
  ]
    where
      after_redeem :
          (t : ℕ) (r : Session)
          → (redeem kit now r.code_redeemed_at r).code_redeemed_at ≡ some t
          → (cs : List (ℕ × Call))
          → (s : Session) × (lookup id
                (run kit
                  (record f {
                    sessions = insert id (redeem kit now r.code_redeemed_at r) f.sessions;
                  })
                  cs).sessions
              ≡ some s)
            × (s.code_redeemed_at ≡ some t)
      after_redeem t r set cs =
          let r' = redeem kit now r.code_redeemed_at r in
          let f' = record f { sessions = insert id r' f.sessions } in
          let (s, found, step) =
            run-Carries kit f' cs id r' (lookup-insert_self id r' f.sessions) in
          (s, found, step.redeemed (λ e. cc) ∙ set)
