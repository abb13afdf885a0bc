-- ===== src/Registry/Fake/Ownership.antt =====
-- Templates of the registry: who reads, lists and deletes them, and what can be created.
use eudi_api_management.Base.{
  ℕ, String, ◌≡◌, refl, sym, ap, ◌∙◌, ◌≢◌, inl, inr, true, false, not, ◌&&◌, none, some, [], subst,
  ◌∷◌, ◌==◌, eq_iff, eq_refl, arith, Bool-cases, Option-cases, ==-eq-false_of_ne, All,
}
use eudi_api_management.Base.Results.{Result, ok, err, Result-cases, ok-inj}
use eudi_api_management.Base.Dict.{Dict, lookup, insert, lookup-insert, lookup-insert_self}
use eudi_api_management.Errors.{Error, Kit, refuse}
use eudi_api_management.Registry.{IntendedUse, Template}
use eudi_api_management.Registry.Fake.{
  FakeTemplate, Fake, next_id, own_template, own_templates, get_intended_use, get_template,
  create_template, delete_template,
}

module _ (kit : Kit) where
  get_template-of :
      (f : Fake) (client_id id : String) (t : FakeTemplate)
      → lookup id f.templates ≡ some t
      → t.client_id ≡ client_id
      → t.deleted ≡ false
      → get_template kit f client_id id ≡ ok t.template
  unfolding get_template own_template
  get_template-of f client_id id t there mine live =
      rw (get_template, there, mine, eq_refl client_id, live)

  -- The client does not own a live template under the id: it is another client's, deleted, or there
  -- is none.
  abbrev pub IsHidden : String → String → Fake → Type 0
  IsHidden client_id id f = own_template client_id (lookup id f.templates) ≡ none

  -- A template that the client does not own is not found by reading or deleting it, and the attempt
  -- to delete it changes nothing.
  pub hidden_refused :
      (client_id id : String) (f : Fake)
      → IsHidden client_id id f
      → (get_template kit f client_id id ≡ refuse kit "registry:not_found")
        × (delete_template kit client_id id f ≡ (refuse kit "registry:not_found", f))
  unfolding get_template delete_template
  hidden_refused client_id id f hidden = (rw (get_template, hidden), rw (delete_template, hidden))

  foreign-IsHidden :
      (client_id id : String) (f : Fake) (t : FakeTemplate)
      → lookup id f.templates ≡ some t
      → t.client_id ≢ client_id
      → IsHidden client_id id f
  unfolding own_template
  foreign-IsHidden client_id id f t there other =
      rw (there, own_template, ==-eq-false_of_ne t.client_id client_id other)

  module _ (now : ℕ) (client_id : String) (t : Template) (f : Fake) where
    -- the row that is stored is the one that was asked for, with the new id and the instant
    pub create_template-row :
        (row : Template)
        → (create_template kit now client_id t f).0 ≡ ok row
        → row ≡ record t { id = row.id; created_at = now }
    unfolding create_template
    create_template-row row h =
        elim (Result-cases (get_intended_use kit f client_id t.intended_use_id)) [
          | inr (e, missing) ↦ cc (rw (create_template, missing) at h)
          | inl (iu, used) ↦ elim (Bool-cases (iu.revoked_at == "")) [
            | inr revoked ↦ cc (rw (create_template, used, revoked) at h)
            | inl active ↦ shaped row (ok-inj (rw (create_template, used, active) at h))
          ]
        ]
      where
        shaped :
            (row : Template)
            → record t { id = (next_id f).0; created_at = now } ≡ row
            → row ≡ record t { id = row.id; created_at = now }
        shaped row same =
            sym same ∙ ap (λ x. record t { id = x; created_at = now }) (ap (λ r. r.id) same)

    -- both outcomes of the operation, with what holds after each
    pub create_template-outcome :
        ((row : Template)
          → (create_template kit now client_id t f).0 ≡ ok row
          → ((iu : IntendedUse) × (get_intended_use kit f client_id t.intended_use_id ≡ ok iu)
              × (iu.revoked_at ≡ ""))
            × (get_template kit (create_template kit now client_id t f).1 client_id row.id ≡ ok row)
            × ((other : String)
                → client_id ≢ other
                → get_template kit (create_template kit now client_id t f).1 other row.id
                  ≡ refuse kit "registry:not_found"))
        × ((e : Error)
            → (create_template kit now client_id t f).0 ≡ err e
            → (create_template kit now client_id t f).1 ≡ f)
    unfolding create_template
    create_template-outcome =
        elim (Result-cases (get_intended_use kit f client_id t.intended_use_id)) [
          | inr (e, missing) ↦ rw (missing, create_template) (λ row h. cc, λ x h. refl)
          | inl (iu, used) ↦ elim (Bool-cases (iu.revoked_at == "")) [
            | inr revoked ↦ rw (used, create_template, revoked) (λ row h. cc, λ x h. refl)
            | inl active ↦
                rw (used, create_template, active)
                  (
                    λ row h. (
                      (iu, refl, (eq_iff _ _).0 active),
                      (written row (ok-inj h)).0,
                      (written row (ok-inj h)).1,
                    ),
                    λ x h. cc,
                  )
          ]
        ]
      where
        id : String
        id = (next_id f).0

        fresh : Template
        fresh = record t { id = id; created_at = now }

        stored : Fake
        stored = record ((next_id f).1) {
          templates =
              insert id (record { template = fresh; client_id = client_id; deleted = false })
                (next_id f).1.templates;
        }

        written :
            (row : Template)
            → fresh ≡ row
            → (get_template kit stored client_id row.id ≡ ok row)
              × ((other : String)
                  → client_id ≢ other
                  → get_template kit stored other row.id ≡ refuse kit "registry:not_found")
        written row same =
            let there =
              lookup-insert_self id
                (record { template = fresh; client_id = client_id; deleted = false })
                (next_id f).1.templates in
            subst
              (λ r.
                (get_template kit stored client_id r.id ≡ ok r)
                × ((other : String)
                    → client_id ≢ other
                    → get_template kit stored other r.id ≡ refuse kit "registry:not_found"))
              same
              (
                get_template-of stored client_id id _ there refl refl,
                λ other differs.
                    (hidden_refused other id stored
                      (foreign-IsHidden other id stored _ there differs)).0,
              )

  -- A template is created only for an intended use that the client has and that is not revoked. Its
  -- owner then reads it back with the new id, and another client does not find it.
  pub create_template-ok :
      (now : ℕ) (client_id : String) (t : Template) (f : Fake) (row : Template) (other : String)
      → (create_template kit now client_id t f).0 ≡ ok row
      → client_id ≢ other
      → ((iu : IntendedUse) × (get_intended_use kit f client_id t.intended_use_id ≡ ok iu)
          × (iu.revoked_at ≡ ""))
        × (get_template kit (create_template kit now client_id t f).1 client_id row.id ≡ ok row)
        × (get_template kit (create_template kit now client_id t f).1 other row.id
            ≡ refuse kit "registry:not_found")
  create_template-ok now client_id t f row other h differs =
      let (used, owner, others) = (create_template-outcome now client_id t f).0 row h in
      (used, owner, others other differs)

  -- A deleted template is found by nobody, and every other template is read as before.
  delete_template-ok :
      (client_id id : String) (f : Fake) (reader other : String)
      → (delete_template kit client_id id f).0 ≡ ok tt
      → id ≢ other
      → (get_template kit (delete_template kit client_id id f).1 reader id
          ≡ refuse kit "registry:not_found")
        × (get_template kit (delete_template kit client_id id f).1 reader other
            ≡ get_template kit f reader other)
  unfolding delete_template get_template
  delete_template-ok client_id id f reader other h differs =
      elim (Option-cases (own_template client_id (lookup id f.templates))) [
        | inl missing ↦ cc (rw (delete_template, missing) at h)
        | inr (t, mine) ↦
            rw (delete_template, mine)
              (
                rw (get_template, lookup-insert_self id (record t { deleted = true }) f.templates)
                    (gone reader t),
                rw (
                  get_template,
                  lookup-insert id other (record t { deleted = true }) f.templates,
                  ==-eq-false_of_ne id other differs,
                ),
              )
      ]
    where
      gone :
          (reader : String) (t : FakeTemplate)
          → ◌≡◌ {A = Result Error Template}
              (elim (own_template reader (some (record t { deleted = true }))) [
                | none ↦ refuse kit "registry:not_found"
                | some u ↦ ok u.template
              ])
              (refuse kit "registry:not_found")
      gone reader t = elim (Bool-cases (t.client_id == reader)) [
        | inl mine ↦ rw (own_template, mine)
        | inr other ↦ rw (own_template, other)
      ]

-- A listing has only live templates of the client.
own_templates_sound :
    (client_id : String) (m : Dict FakeTemplate)
    → All
        (λ t.
          (id : String) × (row : FakeTemplate) × (row.template ≡ t)
          × (row.client_id ≡ client_id)
          × (row.deleted ≡ false))
        (own_templates client_id m)
unfolding own_templates
own_templates_sound client_id [] = tt
own_templates_sound client_id ((id, t) ∷ rest) =
    elim (Bool-cases (t.client_id == client_id && not t.deleted)) [
      | inl mine ↦ rw mine (
        (id, t, refl, ground (arith, eq_iff t.client_id client_id), ground arith),
        own_templates_sound client_id rest,
      )
      | inr other ↦ rw other (own_templates_sound client_id rest)
    ]
