-- ===== src/Registry/Calls.antt =====
-- internal/registrydb/repo.go: the calls of `Store`, of any registry and of the in-memory one. The
-- in-memory registry lists rows in the order of its table, where the Go map has none.
use eudi_api_management.Base.{ℕ, String, Option}
use eudi_api_management.Base.Results.{Result, ok}
use eudi_api_management.Base.Simulation.{tagged}
use eudi_api_management.Errors.{Error, Kit}
use eudi_api_management.Registry.{Store, Client, IntendedUse, Template, ApiKeyRecord}
use eudi_api_management.Base.{List}
use eudi_api_management.Registry.Fake
use eudi_api_management.Registry.Fake.{Fake, reads}

pub data Call : Type 0 where
  resolves gets_client lists_uses lists_templates : String → Call
  gets_use gets_wrprc gets_template deletes_template revokes_key : String → String → Call
  creates_template : String → Template → Call
  creates_key : String → String → String → Call
  creates_client : Client → Call
  sets_uses : String → List IntendedUse → Call

-- What a call answers.
pub data Outcome : Type 0 where
  key : Result Error ApiKeyRecord → Outcome
  client : Result Error Client → Outcome
  intended_use : Result Error IntendedUse → Outcome
  intended_uses : Result Error (List IntendedUse) → Outcome
  wrprc : Result Error (Option String) → Outcome
  template : Result Error Template → Outcome
  templates : Result Error (List Template) → Outcome
  new_id : Result Error String → Outcome
  done : Result Error Unit → Outcome

abbrev pub created : String × Fake → Result Error String × Fake
created (id, f) = (ok id, f)

-- a call of the in-memory store at an instant
unfoldable pub in_memory : Kit → ℕ × Call → Fake → Outcome × Fake
in_memory kit (now, resolves prefix) f = (key (Fake.get_client_by_key_prefix kit f prefix), f)
in_memory kit (now, gets_client id) f = (client (Fake.get_client kit f id), f)
in_memory kit (now, lists_uses client_id) f =
    (intended_uses ((reads kit f).list_intended_uses client_id), f)
in_memory kit (now, lists_templates client_id) f =
    (templates ((reads kit f).list_templates client_id), f)
in_memory kit (now, gets_use client_id id) f =
    (intended_use (Fake.get_intended_use kit f client_id id), f)
in_memory kit (now, gets_wrprc client_id id) f =
    (wrprc (Fake.get_wrprc_for_intended_use kit f client_id id), f)
in_memory kit (now, gets_template client_id id) f =
    (template (Fake.get_template kit f client_id id), f)
in_memory kit (now, deletes_template client_id id) f =
    tagged done (Fake.delete_template kit client_id id f)
in_memory kit (now, revokes_key client_id id) f =
    tagged done (Fake.revoke_api_key kit client_id id f)
in_memory kit (now, creates_template client_id t) f =
    tagged template (Fake.create_template kit now client_id t f)
in_memory kit (now, creates_key client_id prefix secret_hash) f =
    tagged new_id (Fake.create_api_key kit client_id prefix secret_hash f)
in_memory kit (now, creates_client c) f = tagged new_id (created (Fake.create_client c f))
in_memory kit (now, sets_uses client_id ius) f =
    (done (ok tt), Fake.set_intended_uses client_id ius f)

-- A call of a registry, which may do something else at each instant.
unfoldable pub call_store : {S : Type 0} → (ℕ → Store S) → ℕ × Call → S → Outcome × S
call_store store (now, resolves prefix) s =
    tagged key ((store now).get_client_by_key_prefix prefix s)
call_store store (now, gets_client id) s = tagged client ((store now).get_client id s)
call_store store (now, lists_uses client_id) s =
    tagged intended_uses ((store now).list_intended_uses client_id s)
call_store store (now, lists_templates client_id) s =
    tagged templates ((store now).list_templates client_id s)
call_store store (now, gets_use client_id id) s =
    tagged intended_use ((store now).get_intended_use client_id id s)
call_store store (now, gets_wrprc client_id id) s =
    tagged wrprc ((store now).get_wrprc_for_intended_use client_id id s)
call_store store (now, gets_template client_id id) s =
    tagged template ((store now).get_template client_id id s)
call_store store (now, deletes_template client_id id) s =
    tagged done ((store now).delete_template client_id id s)
call_store store (now, revokes_key client_id id) s =
    tagged done ((store now).revoke_api_key client_id id s)
call_store store (now, creates_template client_id t) s =
    tagged template ((store now).create_template client_id t s)
call_store store (now, creates_key client_id prefix secret_hash) s =
    tagged new_id ((store now).create_api_key client_id prefix secret_hash s)
call_store store (now, creates_client c) s = tagged new_id ((store now).create_client c s)
call_store store (now, sets_uses client_id ius) s =
    tagged done ((store now).set_intended_uses client_id ius s)
