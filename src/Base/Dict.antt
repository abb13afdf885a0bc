-- ===== src/Base/Dict.antt =====
-- Go's `map[string]V`, as an association list behind its laws. `keys` is the order of a `range`.
use Prim.Native.String.{String}
use mathlib.Core.Path.{◌≡◌, refl}
use mathlib.Core.Option.{Option, none, some}
use mathlib.Core.List.{List, [], ◌∷◌}
use native.Mathlib.Omega.{arith}
use text.Mathlib.TextEquality.{eq_iff}
use text.Mathlib.TextPositions.{eq_refl}
use eudi_api_management.Base.Tests.{◌==◌, if◌then◌else◌}

abbrev pub Dict {ℓ} : Type ℓ → Type ℓ
Dict V = List (String × V)

module _ {ℓ} {V : Type ℓ} where
  unfoldable pub lookup : String → Dict V → Option V
  lookup k [] = none
  lookup k ((j, x) ∷ d) = if j == k then some x else lookup k d

  -- d[k] = x
  unfoldable pub insert : String → V → Dict V → Dict V
  insert k x [] = (k, x) ∷ []
  insert k x ((j, y) ∷ d) = if j == k then (j, x) ∷ d else (j, y) ∷ insert k x d

  -- delete(d, k)
  unfoldable pub delete : String → Dict V → Dict V
  delete k [] = []
  delete k ((j, y) ∷ d) = let rest = delete k d in if j == k then rest else (j, y) ∷ rest

  abbrev pub keys : Dict V → List String
  keys [] = []
  keys ((j, y) ∷ d) = j ∷ keys d

  pub lookup-insert :
      (k j : String) (x : V) (d : Dict V)
      → lookup j (insert k x d) ≡ (if k == j then some x else lookup j d)
  unfolding lookup insert
  lookup-insert k j x [] = refl
  lookup-insert k j x ((l, y) ∷ d) =
      ground (arith, eq_iff k j, eq_iff l k, eq_iff l j, lookup-insert k j x d)

  pub lookup-delete :
      (k j : String) (d : Dict V) → lookup j (delete k d) ≡ (if k == j then none else lookup j d)
  unfolding lookup delete
  lookup-delete k j [] = ground arith
  lookup-delete k j ((l, y) ∷ d) =
      ground (arith, eq_iff k j, eq_iff l k, eq_iff l j, lookup-delete k j d)

  pub lookup-insert_self : (k : String) (x : V) (d : Dict V) → lookup k (insert k x d) ≡ some x
  lookup-insert_self k x d = simp (lookup-insert, eq_refl)

  pub lookup-delete_self : (k : String) (d : Dict V) → lookup k (delete k d) ≡ none
  lookup-delete_self k d = rw (lookup-delete k k d, eq_refl k) refl

pub ruleset dict_laws = (lookup-insert, lookup-delete)
