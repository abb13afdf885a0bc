-- ===== src/Registry/Fake/Reached.antt =====
-- What holds of the in-memory registry after any sequence of calls.
use eudi_api_management.Base.{
  ℕ, suc, ◌^◌, ◌<◌, String, ◌≡◌, subst, none, inl, inr, List, [], ◌∷◌, arith, ◌==◌, Bool-cases,
  Option-cases,
}
use eudi_api_management.Base.Dict.{Dict, lookup}
use eudi_api_management.Base.Simulation.{trace}
use eudi_api_management.Errors.{Kit}
use eudi_api_management.Registry.{IntendedUse}
use eudi_api_management.Registry.Fake.{
  Fake, new_fake, next_id, with_id, collect_uses, set_intended_uses,
}
use eudi_api_management.Registry.Fake.Ids.{id_of, id_of-inj}
use eudi_api_management.Registry.Fake.Sound.{
  Rows, IsSound, new_fake-IsSound, next_id-IsSound, create_client-IsSound, create_template-IsSound,
  delete_template-IsSound, create_api_key-IsSound, revoke_api_key-IsSound,
}
use eudi_api_management.Registry.Calls.{
  Call, resolves, gets_client, lists_uses, lists_templates, gets_use, gets_wrprc, gets_template,
  deletes_template, revokes_key, creates_template, creates_key, creates_client, sets_uses,
  in_memory,
}

with_id-IsSound : (iu : IntendedUse) (f : Fake) → IsSound f → IsSound (with_id iu f).1
unfolding next_id
with_id-IsSound iu f s = elim (Bool-cases (iu.id == "")) [
  | inl absent ↦ rw absent (next_id-IsSound f s)
  | inr given ↦ rw given s
]

collect_uses-IsSound :
    (ius : List IntendedUse) (m : Dict IntendedUse) (f : Fake)
    → IsSound f
    → IsSound (collect_uses ius m f).1
unfolding collect_uses
collect_uses-IsSound [] m f s = s
collect_uses-IsSound (iu ∷ ius) m f s = collect_uses-IsSound ius _ _ (with_id-IsSound iu f s)

set_intended_uses-IsSound :
    (client_id : String) (ius : List IntendedUse) (f : Fake)
    → IsSound f
    → IsSound (set_intended_uses client_id ius f)
unfolding set_intended_uses
set_intended_uses-IsSound client_id ius f s =
    let s' = collect_uses-IsSound ius [] f s in
    record { clients = s'.clients; templates = s'.templates; keys = s'.keys; indexed = s'.indexed }

module _ (kit : Kit) where
  in_memory-IsSound : (c : ℕ × Call) (f : Fake) → IsSound f → IsSound (in_memory kit c f).1
  unfolding in_memory
  in_memory-IsSound (now, resolves prefix) f s = s
  in_memory-IsSound (now, gets_client id) f s = s
  in_memory-IsSound (now, lists_uses client_id) f s = s
  in_memory-IsSound (now, lists_templates client_id) f s = s
  in_memory-IsSound (now, gets_use client_id id) f s = s
  in_memory-IsSound (now, gets_wrprc client_id id) f s = s
  in_memory-IsSound (now, gets_template client_id id) f s = s
  in_memory-IsSound (now, deletes_template client_id id) f s =
      delete_template-IsSound kit client_id id f s
  in_memory-IsSound (now, revokes_key client_id id) f s =
      revoke_api_key-IsSound kit client_id id f s
  in_memory-IsSound (now, creates_template client_id t) f s =
      create_template-IsSound kit now client_id t f s
  in_memory-IsSound (now, creates_key client_id prefix secret_hash) f s =
      create_api_key-IsSound kit client_id prefix secret_hash f s
  in_memory-IsSound (now, creates_client c) f s = create_client-IsSound c f s
  in_memory-IsSound (now, sets_uses client_id ius) f s = set_intended_uses-IsSound client_id ius f s

  trace-IsSound :
      (cs : List (ℕ × Call)) (f : Fake) → IsSound f → IsSound (trace (in_memory kit) cs f).1
  unfolding trace
  trace-IsSound [] f s = s
  trace-IsSound (c ∷ cs) f s = trace-IsSound cs (in_memory kit c f).1 (in_memory-IsSound c f s)

module _ {V : Type 0} (own_id : V → String) where
  -- The next id is under no row.
  Rows-fresh :
      (f : Fake) (d : Dict V)
      → suc f.seq < 10 ^ 17
      → Rows own_id f.seq d
      → lookup (next_id f).0 d ≡ none
  unfolding next_id
  Rows-fresh f d room h = elim (Option-cases (lookup (id_of (suc f.seq)) d)) [
    | inl missing ↦ missing
    | inr (v, found) ↦
        let ((k, low, same), own) = h (id_of (suc f.seq)) v found in
        absurd (omega (arith, id_of-inj (suc f.seq) k room (omega arith) same))
  ]

-- After any sequence of calls, starting empty and with fewer than 10 ^ 17 - 1 ids taken, every
-- client, template and key of the in-memory registry carries the id that it stands under, every key
-- prefix leads to a key, so that the lookup of a prefix never meets a missing row, and the id that the
-- next creation takes stands in none of the three tables.
pub registry_invariant :
    (kit : Kit) (cs : List (ℕ × Call)) (f : Fake)
    → (trace (in_memory kit) cs new_fake).1 ≡ f
    → suc f.seq < 10 ^ 17
    → IsSound f
      × (lookup (next_id f).0 f.clients ≡ none)
      × (lookup (next_id f).0 f.templates ≡ none)
      × (lookup (next_id f).0 f.api_keys ≡ none)
registry_invariant kit cs f reached room =
    let s = subst IsSound reached (trace-IsSound kit cs new_fake new_fake-IsSound) in
    (
      s,
      Rows-fresh _ f f.clients room s.clients,
      Rows-fresh _ f f.templates room s.templates,
      Rows-fresh _ f f.api_keys room s.keys,
    )
