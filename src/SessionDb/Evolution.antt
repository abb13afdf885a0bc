-- ===== src/SessionDb/Evolution.antt =====
-- How a session may change from one operation of the store to the next.
use eudi_api_management.Base.{
  String, ◌≡◌, refl, sym, ap, subst, ◌∙◌, ◌≢◌, ◌⊎◌, inl, inr, true, none, some, eq_iff, ◌==◌,
  Bool-cases, some-inj,
}
use eudi_api_management.Base.Dict.{Dict, lookup, insert, lookup-insert}
use eudi_api_management.SessionDb.{Session, is_open}

-- A status stays, or an open one becomes expired or cancelled.
abbrev pub StatusStep : String → String → Type 0
StatusStep s t = (t ≡ s) ⊎ ((is_open s ≡ true) × ((t ≡ "expired") ⊎ (t ≡ "cancelled")))

pub record Evolves (s t : Session) : Type 0 where
  pub owner : t.client_id ≡ s.client_id
  pub flow : t.flow ≡ s.flow
  pub deadline : t.expires_at ≡ s.expires_at
  pub status : StatusStep s.status t.status
  pub redeemed : s.code_redeemed_at ≢ none → t.code_redeemed_at ≡ s.code_redeemed_at

pub Evolves-refl : (s : Session) → Evolves s s
Evolves-refl s = record {
  owner = refl;
  flow = refl;
  deadline = refl;
  status = inl refl;
  redeemed = λ _. refl;
}

StatusStep-trans : (r s t : String) → StatusStep r s → StatusStep s t → StatusStep r t
unfolding is_open
StatusStep-trans r s t (inl e) h = rw (← e) h
StatusStep-trans r s t (inr (o, e)) (inl e') = inr (o, rw e' e)
StatusStep-trans r s t (inr (o, inl e)) (inr (o', _)) = absurd (false_open (rw e at o'))
  where
    false_open : is_open "expired" ≡ true → ⊥
    false_open h = cc
StatusStep-trans r s t (inr (o, inr e)) (inr (o', _)) = absurd (false_open (rw e at o'))
  where
    false_open : is_open "cancelled" ≡ true → ⊥
    false_open h = cc

pub Evolves-trans : {r s t : Session} → Evolves r s → Evolves s t → Evolves r t
Evolves-trans {r} {s} {t} a b = record {
  owner = b.owner ∙ a.owner;
  flow = b.flow ∙ a.flow;
  deadline = b.deadline ∙ a.deadline;
  status = StatusStep-trans r.status s.status t.status a.status b.status;
  redeemed = λ h. b.redeemed (λ e. h (sym (a.redeemed h) ∙ e)) ∙ a.redeemed h;
}

-- What stood under a key still stands there, evolved.
abbrev pub Carries : Dict Session → Dict Session → Type 0
Carries m n =
    (j : String) (s : Session)
    → lookup j m ≡ some s
    → (t : Session) × (lookup j n ≡ some t) × Evolves s t

pub Carries-refl : (m : Dict Session) → Carries m m
Carries-refl m j s e = (s, e, Evolves-refl s)

pub Carries-trans : (l m n : Dict Session) → Carries l m → Carries m n → Carries l n
Carries-trans l m n h k j r e =
    let (s, f, a) = h j r e in let (t, g, b) = k j s f in (t, g, Evolves-trans a b)

-- Writing an evolved session under its key.
pub insert-Carries :
    (m : Dict Session) (id : String) (s t : Session)
    → lookup id m ≡ some s
    → Evolves s t
    → Carries m (insert id t m)
insert-Carries m id s t found step j r e = elim (Bool-cases (id == j)) [
  | inl same ↦ (
    t,
    rw (lookup-insert id j t m, same),
    subst (λ x. Evolves x t)
        (some-inj (sym found ∙ ap (λ k. lookup k m) ((eq_iff id j).0 same) ∙ e)) step,
  )
  | inr other ↦ (r, rw (lookup-insert id j t m, other) e, Evolves-refl r)
]
