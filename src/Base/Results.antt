-- ===== src/Base/Results.antt =====
-- Values that may be an error: the source's pairs of a value and an `error`.
use mathlib.Core.Path.{◌≡◌, refl}
use mathlib.Core.Logic.{◌⊎◌, inl, inr}
use mathlib.Core.Option.{Option, none, some}

pub data Result {ℓ} (E A : Type ℓ) : Type ℓ where
  ok : A → Result E A
  err : E → Result E A

infixl 5 ◌>>=◌
abbrev pub ◌>>=◌ {ℓ} : {E A B : Type ℓ} → Result E A → (A → Result E B) → Result E B
ok a >>= f = f a
err e >>= f = err e

module _ {ℓ} {E A : Type ℓ} where
  abbrev pub or_fail : Option A → E → Result E A
  or_fail none e = err e
  or_fail (some a) e = ok a

  pub Result-cases : (r : Result E A) → ((a : A) × (r ≡ ok a)) ⊎ ((e : E) × (r ≡ err e))
  Result-cases (ok a) = inl (a, refl)
  Result-cases (err e) = inr (e, refl)

  -- Inversion of a successful chain.
  pub >>=-eq-ok :
      {B : Type ℓ} (first : Result E A) (next : A → Result E B) {c : B}
      → (first >>= next) ≡ ok c
      → (a : A) × (first ≡ ok a) × (next a ≡ ok c)
  >>=-eq-ok (ok a) next run = (a, refl, run)
  >>=-eq-ok (err e) next run = cc

  pub or_fail-eq-ok : (o : Option A) (e : E) {a : A} → or_fail o e ≡ ok a → o ≡ some a
  or_fail-eq-ok none e h = cc
  or_fail-eq-ok (some b) e h = cc

pub ok-inj {ℓ} : {E A : Type ℓ} {a b : A} → ◌≡◌ {A = Result E A} (ok a) (ok b) → a ≡ b
ok-inj h = cc
