-- ===== src/Webhook/Retrier/Claimed.antt =====
-- `Due` as a whole: which sessions a replica claims.
use eudi_api_management.Base.{
  ℕ, ◌+◌, String, ◌≡◌, refl, sym, ap, ◌∙◌, subst, inl, inr, Bool, false, ◌&&◌, Option, none, some,
  List, [], ◌∷◌, arith, eq_iff, if◌then◌else◌, count, contains, ◌==◌, leb, Bool-cases,
}
use eudi_api_management.Base.Dict.{Dict, lookup, keys}
use eudi_api_management.Results.{value}
use eudi_api_management.Valkey.{
  Valkey, Faults, zrange, names, due_members, insert_by_score, before_in_range, tick,
}
use eudi_api_management.Webhook.Retrier.{unix, due}
use eudi_api_management.Webhook.Retrier.Claims.{is_member, claim_loop-lem}

-- A schedule in which every session stands once.
abbrev pub IsDistinct : List String → Type 0
IsDistinct [] = Unit
IsDistinct (k ∷ ks) = (contains k ks ≡ false) × IsDistinct ks

-- the score is there and not above the limit
abbrev pub is_due_by : ℕ → Option ℕ → Bool
is_due_by limit none = false
is_due_by limit (some score) = leb score limit

contains-insert_by_score :
    (k id : String) (score : ℕ) (xs : List (String × ℕ))
    → contains k (names (insert_by_score (id, score) xs)) ≡ contains k (names ((id, score) ∷ xs))
unfolding insert_by_score
contains-insert_by_score k id score [] = refl
contains-insert_by_score k id score ((j, n) ∷ xs) =
    elim (Bool-cases (before_in_range (j, n) (id, score))) [
      | inl before ↦
          rw (insert_by_score, before) (ground (arith, contains-insert_by_score k id score xs))
      | inr after ↦ rw (insert_by_score, after) refl
    ]

lookup-absent : (k : String) (d : Dict ℕ) → contains k (keys d) ≡ false → lookup k d ≡ none
unfolding lookup
lookup-absent k [] h = refl
lookup-absent k ((j, n) ∷ d) h = ground (arith, lookup-absent k d)

contains-due_members :
    (limit : ℕ) (k : String) (d : Dict ℕ)
    → IsDistinct (keys d)
    → contains k (names (due_members limit d)) ≡ is_due_by limit (lookup k d)
unfolding due_members lookup
contains-due_members limit k [] distinct = refl
contains-due_members limit k ((id, score) ∷ d) (once, distinct) =
    let rest = contains-due_members limit k d distinct in
    elim (Bool-cases (id == k)) [
      | inr other ↦ elim (Bool-cases (leb score limit)) [
        | inl low ↦ rw (due_members, low, contains-insert_by_score k id score, other) rest
        | inr high ↦ rw (due_members, high, other) rest
      ]
      | inl same ↦ elim (Bool-cases (leb score limit)) [
        | inl low ↦ rw (due_members, low, contains-insert_by_score k id score, same) (sym low)
        | inr high ↦
            let absent : lookup k d ≡ none =
              subst (λ j. lookup j d ≡ none) ((eq_iff id k).0 same) (lookup-absent id d once) in
            rw (due_members, high, same) (rest ∙ ap (is_due_by limit) absent ∙ sym high)
      ]
    ]

is_due_by-member :
    (limit : ℕ) (o : Option ℕ) → (is_due_by limit o && is_member o) ≡ is_due_by limit o
is_due_by-member limit none = refl
is_due_by-member limit (some score) = ground arith

module _ (faults : Faults) (quiet : (n : ℕ) → faults n ≡ false) (now : ℕ) where
  -- With no failing call, and every session standing once in the schedule, Due gives exactly the
  -- sessions whose second has come, each once. It takes exactly these off the schedule, and the
  -- queue stays as it is.
  pub due-lem :
      (v : Valkey)
      → IsDistinct (keys v.retries)
      → (out : List String) × (w : Valkey) × (due faults now v ≡ (value out, w))
        × ((k : String)
            → count k out ≡ (if is_due_by (unix now) (lookup k v.retries) then 1 else 0))
        × ((k : String)
            → lookup k w.retries
              ≡ (if is_due_by (unix now) (lookup k v.retries) then none else lookup k v.retries))
        × (w.queue ≡ v.queue)
  unfolding due zrange
  due-lem v distinct =
      let members = names (due_members (unix now) v.retries) in
      let (out, w, claimed, counts, left, queue) =
        claim_loop-lem faults quiet members [] (tick v) in
      (
        out,
        w,
        rw (due, zrange, quiet v.served) claimed,
        λ k. omega (
          arith,
          counts k
              ∙ ap (λ b. 0 + (if b && is_member (lookup k v.retries) then 1 else 0))
                  (contains-due_members (unix now) k v.retries distinct)
              ∙ ap (λ b. 0 + (if b then 1 else 0))
                  (is_due_by-member (unix now) (lookup k v.retries)),
        ),
        λ k.
            left k
            ∙ ap (λ b. if b then none else lookup k v.retries)
                (contains-due_members (unix now) k v.retries distinct),
        queue,
      )
