-- ===== src/SessionDb/Sweep.antt =====
-- The expiry sweep, `ExpireDue` of internal/sessiondb/fake.go.
use eudi_api_management.Base.{
  ℕ, ◌≤◌, ◌<◌, ◌+◌, String, ◌≡◌, refl, ap, inl, inr, false, ◌||◌, none, some, Option, List, [], ◌∷◌,
  arith, eq_iff, ◌==◌, if◌then◌else◌, leb, length, length-append, contains, Bool-cases,
  Option-cases,
}
use eudi_api_management.Base.Results.{ok}
use eudi_api_management.Base.Dict.{Dict, lookup, keys, lookup-insert}
use eudi_api_management.SessionDb.{Session, ExpiredSession, Fake, is_open, is_due, lazily_expire}
use eudi_api_management.SessionDb.Expire.{
  Batch, insert_sorted, sort_strings, expired_row, expire, expire_one, expire_loop, expire_due,
}

expire-not_due : (now : ℕ) (s : Session) → is_due now (expire now s) ≡ false
unfolding is_due is_open expire
expire-not_due now s = refl

pub lazily_expire-not_due : (now : ℕ) (s : Session) → is_due now (lazily_expire now s) ≡ false
unfolding lazily_expire expire
lazily_expire-not_due now s = elim (Bool-cases (is_due now s)) [
  | inl due ↦ rw due (expire-not_due now s)
  | inr early ↦ rw early early
]

lazily_expire-eq_of_not_due :
    (now : ℕ) (s : Session) → is_due now s ≡ false → lazily_expire now s ≡ s
unfolding lazily_expire
lazily_expire-eq_of_not_due now s early = rw early

lazily_expire_idem :
    (now : ℕ) (s : Session) → lazily_expire now (lazily_expire now s) ≡ lazily_expire now s
lazily_expire_idem now s = lazily_expire-eq_of_not_due now _ (lazily_expire-not_due now s)

-- The session under a key, lazily expired.
abbrev pub settle : ℕ → Option Session → Option Session
settle now none = none
settle now (some s) = some (lazily_expire now s)

settle_idem : (now : ℕ) (o : Option Session) → settle now (settle now o) ≡ settle now o
settle_idem now none = refl
settle_idem now (some s) = ap some (lazily_expire_idem now s)

-- one step of the loop settles the session under its key and no other
lookup-expire_one :
    (now : ℕ) (id j : String) (b : Batch)
    → lookup j (expire_one now id (lookup id b.store.sessions) b).store.sessions
      ≡ (if id == j then settle now (lookup j b.store.sessions) else lookup j b.store.sessions)
unfolding expire_one lazily_expire expire
lookup-expire_one now id j b = elim (Option-cases (lookup id b.store.sessions)) [
  | inl e ↦ rw (e, expire_one) (ground (arith, eq_iff id j, e))
  | inr (s, e) ↦
      rw (e, expire_one)
        (ground (arith, eq_iff id j, e, lookup-insert id j (expire now s) b.store.sessions))
]

-- the loop under way has not met its limit, so every key of the list has been settled
lookup-expire_loop :
    (now limit : ℕ) (ids : List String) (j : String) (b : Batch)
    → length (expire_loop now limit ids b).out < limit
    → lookup j (expire_loop now limit ids b).store.sessions ≡ (
        if contains j ids
        then settle now (lookup j b.store.sessions)
        else lookup j b.store.sessions)
unfolding expire_loop
lookup-expire_loop now limit [] j b h = refl
lookup-expire_loop now limit (id ∷ ids) j b h = elim (Bool-cases (leb limit (length b.out))) [
  | inl full ↦ absurd (ground arith)
  | inr room ↦
      let next = expire_one now id (lookup id b.store.sessions) b in
      let rest = lookup-expire_loop now limit ids j next (rw room at h) in
      rw room (
        ground
          (arith, rest, lookup-expire_one now id j b, settle_idem now (lookup j b.store.sessions)))
]

contains-insert_sorted :
    (k x : String) (xs : List String) → contains k (insert_sorted x xs) ≡ (x == k || contains k xs)
unfolding insert_sorted
contains-insert_sorted k x [] = refl
contains-insert_sorted k x (y ∷ ys) = ground (arith, contains-insert_sorted k x ys)

contains-sort_strings :
    (k : String) (xs : List String) → contains k (sort_strings xs) ≡ contains k xs
unfolding sort_strings
contains-sort_strings k [] = refl
contains-sort_strings k (x ∷ xs) =
    rw (contains-insert_sorted k x (sort_strings xs), contains-sort_strings k xs)

lookup-eq-none : (k : String) (m : Dict Session) → contains k (keys m) ≡ false → lookup k m ≡ none
unfolding lookup
lookup-eq-none k [] h = refl
lookup-eq-none k ((j, v) ∷ m) h = ground (arith, lookup-eq-none k m)

length-expire_one :
    (now : ℕ) (id : String) (o : Option Session) (b : Batch)
    → length (expire_one now id o b).out ≤ length b.out + 1
unfolding expire_one
length-expire_one now id none b = omega arith
length-expire_one now id (some s) b =
    ground (arith, length-append b.out (expired_row (expire now s) ∷ []))

length-expire_loop :
    (now limit : ℕ) (ids : List String) (b : Batch)
    → length b.out ≤ limit
    → length (expire_loop now limit ids b).out ≤ limit
unfolding expire_loop
length-expire_loop now limit [] b h = h
length-expire_loop now limit (id ∷ ids) b h = elim (Bool-cases (leb limit (length b.out))) [
  | inl full ↦ rw full h
  | inr room ↦ rw room (
      length-expire_loop now limit ids _
        (ground (arith, length-expire_one now id (lookup id b.store.sessions) b)))
]

-- A sweep returns at most `limit` sessions.
expire_due-bounded :
    (now limit : ℕ) (f : Fake) (out : List ExpiredSession)
    → (expire_due now limit f).0 ≡ ok out
    → length out ≤ limit
unfolding expire_due
expire_due-bounded now limit f out e =
    let bound =
      length-expire_loop now limit (sort_strings (keys f.sessions)) (record { out = []; store = f })
        (omega arith) in
    ground arith

-- A sweep that returns fewer than `limit` sessions has expired every open session past its
-- deadline and changed no other.
expire_due_complete :
    (now limit : ℕ) (f : Fake) (out : List ExpiredSession) (j : String)
    → (expire_due now limit f).0 ≡ ok out
    → length out < limit
    → lookup j (expire_due now limit f).1.sessions ≡ settle now (lookup j f.sessions)
unfolding expire_due
expire_due_complete now limit f out j e h =
    let b : Batch = record { out = []; store = f } in
    let swept = lookup-expire_loop now limit (sort_strings (keys f.sessions)) j b (ground arith) in
    ground (arith, swept, contains-sort_strings j (keys f.sessions), lookup-eq-none j f.sessions)
