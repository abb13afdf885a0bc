-- ===== src/Routes/Poll/Release.antt =====
-- When a poll releases claim values.
use eudi_api_management.Base.{
  ℕ, String, ◌≡◌, refl, ap, ◌∙◌, ◌⊎◌, ◌≢◌, inl, inr, Bool, true, false, not, ◌&&◌, Option, none,
  some, ◌==◌, eq_iff, eq_refl, arith, Bool-cases,
}
use eudi_api_management.Base.Results.{Result, ok, err, ok-inj, Result-cases, ◌>>=◌}
use eudi_api_management.Base.Dict.{lookup, lookup-delete}
use eudi_api_management.Errors.{Error}
use eudi_api_management.Wire.{VerificationResult, Codec, Keys}
use eudi_api_management.SessionDb.{Session, Store}
use eudi_api_management.Results.{Reply, value, nil, failed, Mapped, map_report}
use eudi_api_management.Valkey.{Valkey, Faults, getdel}
use eudi_api_management.Routes.Poll.{
  SessionView, Stores, is_redeemed, is_released, wants_code, marked, redeem_for, redeem_code,
  release, get_session, view_of,
}

wants_code-some :
    (s : Session) (code : Option String) (c : String)
    → wants_code s code ≡ some c
    → (code ≡ some c) × (s.flow ≡ "same_device")
unfolding wants_code
wants_code-some s none c h = cc
wants_code-some s (some d) c h =
    elim (Bool-cases
      (s.flow == "same_device" && not (is_redeemed s.code_redeemed_at) && not (d == ""))) [
        | inl wanted ↦ (rw wanted at h, ground (arith, eq_iff s.flow "same_device"))
        | inr ignored ↦ cc (rw ignored at h)
      ]

is_released-true :
    (s : Session) (redeemed : Bool)
    → is_released s redeemed ≡ true
    → (s.status ≡ "verified") × ((s.flow ≢ "same_device") ⊎ (redeemed ≡ true))
unfolding is_released
is_released-true s redeemed h = (
  ground (arith, eq_iff s.status "verified"),
  elim (Bool-cases redeemed) [
    | inl done ↦ inr done
    | inr open_still ↦ inl (λ same. ground (arith, eq_iff s.flow "same_device"))
  ],
)

module _ {S : Type 0} (store : Store S) (codec : Codec) (keys : Keys) (faults : Faults)
    (now : ℕ) where
  redeem_for-true :
      (client_id : String) (s : Session) (id : String) (reply : Reply String) (w : Stores S)
      → (redeem_for store codec keys faults now client_id s id reply w).0 ≡ ok true
      → (is_redeemed s.code_redeemed_at ≡ true) ⊎ (reply ≡ value s.id)
  unfolding redeem_for
  redeem_for-true client_id s id nil w h = inl (ok-inj h)
  redeem_for-true client_id s id failed w h = cc
  redeem_for-true client_id s id (value owner) w h = elim (Bool-cases (owner == s.id)) [
    | inl mine ↦ inr (ap value ((eq_iff _ _).0 mine))
    | inr other ↦ inl (ok-inj (rw other at h))
  ]

  redeem_code-true :
      (client_id : String) (s : Session) (id : String) (code : Option String) (w : Stores S)
      → (redeem_code store codec keys faults now client_id s id code w).0 ≡ ok true
      → (is_redeemed s.code_redeemed_at ≡ true)
        ⊎ ((c : String) × (code ≡ some c) × ((getdel faults now c w.valkey).0 ≡ value s.id))
  unfolding redeem_code
  redeem_code-true client_id s id none w h = inl (ok-inj h)
  redeem_code-true client_id s id (some c) w h =
      elim (redeem_for-true client_id s id (getdel faults now c w.valkey).0 _ h) [
        | inl already ↦ inl already
        | inr mine ↦ inr (c, refl, mine)
      ]

  release-some :
      (s : Session) (id : String) (mapped : Mapped) (before : Result Error Bool × Stores S)
      (view : SessionView) (r : VerificationResult)
      → (release store codec keys faults now s id mapped before).0 ≡ ok view
      → view.result ≡ some r
      → (redeemed : Bool) × (before.0 ≡ ok redeemed) × (is_released s redeemed ≡ true)
  unfolding release view_of
  release-some s id mapped (err e, w) view r h there = cc
  release-some s id mapped (ok redeemed, w) view r h there =
      elim (Bool-cases (is_released s redeemed)) [
        | inl free ↦ (redeemed, refl, free)
        | inr held ↦ let shown = ok-inj (rw held at h) in cc (ap (λ x. x.result) shown, there)
      ]

  -- A poll shows claim values only for a session that the store gives to the client, in state
  -- verified, whose flow is not same_device or whose response code was redeemed: before, or by this
  -- poll with a code that the cache holds for this very session.
  pub get_session-releases :
      (client_id id : String) (code : Option String) (w : Stores S) (view : SessionView)
      (r : VerificationResult)
      → (get_session store codec keys faults now client_id id code w).0 ≡ ok view
      → view.result ≡ some r
      → (s : Session) × ((store.get_for_client client_id id w.db).0 ≡ ok s)
        × (s.status ≡ "verified")
        × ((s.flow ≢ "same_device")
            ⊎ (is_redeemed s.code_redeemed_at ≡ true)
            ⊎ ((c : String) × (code ≡ some c) × ((getdel faults now c w.valkey).0 ≡ value s.id)))
  unfolding get_session
  get_session-releases client_id id code w view r h there =
      elim (Result-cases (store.get_for_client client_id id w.db).0) [
        | inr (e, failure) ↦ cc (rw failure at h)
        | inl (s, found) ↦
            let db = (store.get_for_client client_id id w.db).1 in
            elim (Result-cases
              ((store.get_report_for_client client_id id db).0 >>= map_report codec)) [
                | inr (e, failure) ↦ cc (rw (found, failure) at h)
                | inl (mapped, good) ↦
                    let (redeemed, before, free) =
                      release-some s id mapped _ view r (rw (found, good) at h) there in
                    let (verified, which) = is_released-true s redeemed free in
                    (
                      s,
                      found,
                      verified,
                      elim which [
                        | inl other_flow ↦ inl other_flow
                        | inr done ↦
                            elim (redeem_code-true client_id s id (wants_code s code) _
                              (before ∙ ap ok done)) [
                                | inl already ↦ inr (inl already)
                                | inr (c, wanted, mine) ↦
                                    inr (inr (c, (wants_code-some s code c wanted).0, mine))
                              ]
                      ],
                    )
              ]
      ]

  marked-valkey :
      (v : Valkey) (x : Result Error Unit × S)
      → (marked store codec keys faults now v x).1.valkey ≡ v
  marked-valkey v (ok u, db) = refl
  marked-valkey v (err e, db) = refl

  redeem_for-valkey :
      (client_id : String) (s : Session) (id : String) (reply : Reply String) (w : Stores S)
      → (redeem_for store codec keys faults now client_id s id reply w).1.valkey ≡ w.valkey
  unfolding redeem_for
  redeem_for-valkey client_id s id nil w = refl
  redeem_for-valkey client_id s id failed w = refl
  redeem_for-valkey client_id s id (value owner) w = elim (Bool-cases (owner == s.id)) [
    | inl mine ↦ rw mine (marked-valkey w.valkey (store.mark_code_redeemed client_id id w.db))
    | inr other ↦ rw other
  ]

  getdel-consumes :
      (c : String) (v : Valkey)
      → faults v.served ≡ false
      → lookup c (getdel faults now c v).1.resp_codes ≡ none
  unfolding getdel
  getdel-consumes c v quiet = rw (quiet, lookup-delete c c v.resp_codes, eq_refl c)

  getdel-absent :
      (c : String) (v : Valkey)
      → faults v.served ≡ false
      → lookup c v.resp_codes ≡ none
      → (getdel faults now c v).0 ≡ nil
  unfolding getdel
  getdel-absent c v quiet gone = rw (quiet, gone)

  -- If no call of the cache fails, a code that was presented is gone from the cache afterwards,
  -- whether it was for this session, for another one or unknown: a second read of it finds
  -- nothing.
  pub redeem_code-single_use :
      ((n : ℕ) → faults n ≡ false)
      → (client_id : String) (s : Session) (id c : String) (w : Stores S)
      → (getdel faults now c
          (redeem_code store codec keys faults now client_id s id (some c) w).1.valkey).0
        ≡ nil
  unfolding redeem_code
  redeem_code-single_use quiet client_id s id c w =
      rw
        (redeem_for-valkey client_id s id (getdel faults now c w.valkey).0
          (record w { valkey = (getdel faults now c w.valkey).1 }))
        (getdel-absent c _ (quiet _) (getdel-consumes c w.valkey (quiet _)))
