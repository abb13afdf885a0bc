-- ===== src/Wire/Flows.antt =====
-- internal/api/types.go: the flow enums of the API and of the database.
use eudi_api_management.Base.{
  String, ◌≡◌, refl, ◌⊎◌, inl, inr, ◌||◌, Option, none, some, arith, eq_iff, ◌==◌, if◌then◌else◌,
}

-- FlowToDB; `none` is ErrUnknownFlow
unfoldable pub flow_to_db : String → Option String
flow_to_db flow =
    if flow == "" || flow == "cross_device"
    then some "cross_device"
    else if flow == "same_device"
    then some "same_device"
    else if flow == "dc_api"
    then some "dcapi"
    else none

-- FlowFromDB
unfoldable pub flow_from_db : String → String
flow_from_db flow = if flow == "dcapi" then "dc_api" else flow

-- What each accepted flow is stored as.
flow_to_db-cases :
    (flow db : String)
    → flow_to_db flow ≡ some db
    → (((flow ≡ "") ⊎ (flow ≡ "cross_device")) × (db ≡ "cross_device"))
      ⊎ ((flow ≡ "same_device") × (db ≡ "same_device"))
      ⊎ ((flow ≡ "dc_api") × (db ≡ "dcapi"))
unfolding flow_to_db
flow_to_db-cases flow db h = ground (
  arith,
  eq_iff flow "",
  eq_iff flow "cross_device",
  eq_iff flow "same_device",
  eq_iff flow "dc_api",
)

-- The database's value of an accepted flow is one of the schema's three, and maps back to the flow
-- that the request named, an omitted flow to the default.
flow_from_db-flow_to_db :
    (flow db : String)
    → flow_to_db flow ≡ some db
    → (flow_from_db db ≡ (if flow == "" then "cross_device" else flow))
      × ((db ≡ "cross_device") ⊎ (db ≡ "same_device") ⊎ (db ≡ "dcapi"))
unfolding flow_from_db
flow_from_db-flow_to_db flow db h = elim (flow_to_db-cases flow db h) [
  | inl (inl e, d) ↦ rw (e, d) (refl, inl refl)
  | inl (inr e, d) ↦ rw (e, d) (refl, inl refl)
  | inr (inl (e, d)) ↦ rw (e, d) (refl, inr (inl refl))
  | inr (inr (e, d)) ↦ rw (e, d) (refl, inr (inr refl))
]
