-- ===== src/Routes/Health.antt =====
-- routes/health.go: `readyz`; the two pings are arguments.
use eudi_api_management.Base.{
  ◌≡◌, refl, ◌↔◌, ◌⊎◌, inl, inr, arith, ℕ, String, Bool, true, false, List, [], ◌∷◌, ◌++◌,
  if◌then◌else◌,
}

pub record Readiness : Type 0 where
  pub http_status : ℕ
  pub status : String
  pub components : List (String × String)

unfoldable component : Bool → String → List (String × String)
component reachable name = if reachable then [] else (name, "unreachable") ∷ []

abbrev ready_of : List (String × String) → Readiness
ready_of [] = record { http_status = 200; status = "ok"; components = [] }
ready_of (d ∷ ds) = record { http_status = 503; status = "degraded"; components = d ∷ ds }

unfoldable readyz : Bool → Bool → Readiness
unfolding component
readyz postgres valkey = ready_of (component postgres "postgres" ++ component valkey "valkey")

-- The service is ready exactly if both dependencies answer, and otherwise answers 503.
readyz_iff :
    (postgres valkey : Bool)
    → (((readyz postgres valkey).http_status ≡ 200) ↔ ((postgres ≡ true) × (valkey ≡ true)))
      × (((readyz postgres valkey).http_status ≡ 200)
          ⊎ ((readyz postgres valkey).http_status ≡ 503))
unfolding readyz component
readyz_iff true true = ((λ h. (refl, refl), λ h. refl), inl refl)
readyz_iff true false = ((λ h. absurd (ground arith), λ h. cc), inr refl)
readyz_iff false true = ((λ h. absurd (ground arith), λ h. cc), inr refl)
readyz_iff false false = ((λ h. absurd (ground arith), λ h. cc), inr refl)
