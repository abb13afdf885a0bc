-- ===== src/Base/Simulation.antt =====
-- Two implementations of the same calls, one step at a time: if they agree on every call, they agree on
-- every sequence of calls.
use mathlib.Core.Path.{◌≡◌, refl, ap}
use mathlib.Core.List.{List, [], ◌∷◌}

module _ {C O : Type 0} where
  -- the answers to a sequence of calls, and the state at its end
  unfoldable pub trace : {S : Type 0} → (C → S → O × S) → List C → S → List O × S
  trace step [] s = ([], s)
  trace step (c ∷ cs) s =
      let first = step c s in let rest = trace step cs first.1 in (first.0 ∷ rest.0, rest.1)

-- the same answer, and states that are seen as one
abbrev pub Agrees : {O S F : Type 0} → (S → F) → O × S → O × F → Type 0
Agrees view x y = (x.0 ≡ y.0) × (view x.1 ≡ y.1)

abbrev pub tagged : {R O S : Type 0} → (R → O) → R × S → O × S
tagged tag (r, s) = (tag r, s)

pub tagged-Agrees :
    {R O S F : Type 0} (view : S → F) (tag : R → O) (x : R × S) (y : R × F)
    → Agrees view x y
    → Agrees view (tagged tag x) (tagged tag y)
tagged-Agrees view tag x y (same, seen) = (ap tag same, seen)

module _ {C O S F : Type 0} (view : S → F) (step : C → S → O × S) (reference : C → F → O × F)
    (Serves : C → S → Type 0) where
  -- Every call of a sequence is served from the state that the calls before it left.
  abbrev pub Served : List C → S → Type 0
  Served [] s = Unit
  Served (c ∷ cs) s = Serves c s × Served cs (step c s).1

  pub simulates :
      ((c : C) (s : S) → Serves c s → Agrees view (step c s) (reference c (view s)))
      → (cs : List C) (s : S) → Served cs s
      → Agrees view (trace step cs s) (trace reference cs (view s))
  unfolding trace
  simulates agrees [] s h = (refl, refl)
  simulates agrees (c ∷ cs) s (served, rest) =
      let (same, seen) = agrees c s served in
      let (answers, final) = simulates agrees cs (step c s).1 rest in
      rw (same, ← seen) (rw answers refl, final)
