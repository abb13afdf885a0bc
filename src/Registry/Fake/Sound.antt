-- ===== src/Registry/Fake/Sound.antt =====
-- An invariant of the in-memory registry over all calls: rows carry their ids, ids are never used
-- twice, and a key prefix leads to a row.
use eudi_api_management.Base.{
  ℕ, suc, ◌≤◌, String, ◌≡◌, refl, some, inl, inr, not, ◌||◌, arith, ◌==◌, eq_iff, some-inj,
  Bool-cases, Option-cases,
}
use eudi_api_management.Base.Results.{Result-cases}
use eudi_api_management.Base.Dict.{Dict, lookup, insert, lookup-insert}
use eudi_api_management.Errors.{Kit}
use eudi_api_management.Registry.{Client, Template, ApiKeyRecord}
use eudi_api_management.Registry.Fake.{
  Fake, FakeTemplate, next_id, own_template, get_intended_use, create_template, delete_template,
  create_api_key, revoke_api_key, create_client, new_fake,
}
use eudi_api_management.Registry.Fake.Ids.{id_of}

-- one of the first ids
abbrev IsMinted : ℕ → String → Type 0
IsMinted n id = (k : ℕ) × (k ≤ n) × (id ≡ id_of k)

module _ {V : Type 0} (own_id : V → String) where
  -- Every row stands under one of the first ids, and carries it.
  abbrev pub Rows : ℕ → Dict V → Type 0
  Rows n d = (id : String) (v : V) → lookup id d ≡ some v → IsMinted n id × (own_id v ≡ id)

  Rows-later : (n m : ℕ) (d : Dict V) → n ≤ m → Rows n d → Rows m d
  Rows-later n m d le h id v found =
      let ((k, low, same), own) = h id v found in ((k, omega arith, same), own)

  Rows-insert :
      (n : ℕ) (d : Dict V) (id : String) (v : V)
      → IsMinted n id
      → own_id v ≡ id
      → Rows n d
      → Rows n (insert id v d)
  Rows-insert n d id v minted own h j w found = elim (Bool-cases (id == j)) [
    | inl same ↦
        let stored : v ≡ w = some-inj (rw (lookup-insert id j v d, same) at found) in
        rw (← (eq_iff id j).0 same, ← stored) (minted, own)
    | inr other ↦ h j w (rw (lookup-insert id j v d, other) at found)
  ]

abbrev client_id_of : Client → String
client_id_of c = c.id

abbrev template_id_of : FakeTemplate → String
template_id_of t = t.template.id

abbrev key_id_of : ApiKeyRecord → String
key_id_of k = k.key_id

-- a prefix of the index leads to a row
abbrev Indexed : Dict String → Dict ApiKeyRecord → Type 0
Indexed index keys =
    (prefix id : String)
    → lookup prefix index ≡ some id
    → (k : ApiKeyRecord) × (lookup id keys ≡ some k)

Indexed-insert :
    (index : Dict String) (keys : Dict ApiKeyRecord) (id : String) (k : ApiKeyRecord)
    → Indexed index keys
    → Indexed index (insert id k keys)
Indexed-insert index keys id k h prefix j found = elim (Bool-cases (id == j)) [
  | inl same ↦ (k, rw (lookup-insert id j k keys, same) refl)
  | inr other ↦
      let (row, there) = h prefix j found in (row, rw (lookup-insert id j k keys, other) there)
]

Indexed-new :
    (index : Dict String) (keys : Dict ApiKeyRecord) (prefix id : String) (k : ApiKeyRecord)
    → Indexed index keys
    → Indexed (insert prefix id index) (insert id k keys)
Indexed-new index keys prefix id k h p j found = elim (Bool-cases (prefix == p)) [
  | inr other ↦
      Indexed-insert index keys id k h p j (rw (lookup-insert prefix p id index, other) at found)
  | inl same ↦
      let here : id ≡ j = some-inj (rw (lookup-insert prefix p id index, same) at found) in
      (k, rw (lookup-insert id j k keys, (eq_iff id j).1 here) refl)
]

pub record IsSound (f : Fake) : Type 0 where
  pub clients : Rows client_id_of f.seq f.clients
  pub templates : Rows template_id_of f.seq f.templates
  pub keys : Rows key_id_of f.seq f.api_keys
  pub indexed : Indexed f.keys_by_prefix f.api_keys

pub new_fake-IsSound : IsSound new_fake
unfolding lookup
new_fake-IsSound = record {
  clients = λ id v h. cc;
  templates = λ id v h. cc;
  keys = λ id v h. cc;
  indexed = λ prefix id h. cc;
}

-- An id more in use.
pub next_id-IsSound : (f : Fake) → IsSound f → IsSound (record f { seq = suc f.seq })
next_id-IsSound f s = record {
  clients = Rows-later client_id_of f.seq (suc f.seq) f.clients (omega arith) s.clients;
  templates = Rows-later template_id_of f.seq (suc f.seq) f.templates (omega arith) s.templates;
  keys = Rows-later key_id_of f.seq (suc f.seq) f.api_keys (omega arith) s.keys;
  indexed = s.indexed;
}

last-IsMinted : (f : Fake) → IsMinted (suc f.seq) (id_of (suc f.seq))
last-IsMinted f = (suc f.seq, omega arith, refl)

pub create_client-IsSound : (c : Client) (f : Fake) → IsSound f → IsSound (create_client c f).1
unfolding create_client next_id
create_client-IsSound c f s =
    let later = next_id-IsSound f s in
    record {
      clients =
          Rows-insert client_id_of (suc f.seq) f.clients (id_of (suc f.seq)) _ (last-IsMinted f)
            refl later.clients;
      templates = later.templates;
      keys = later.keys;
      indexed = later.indexed;
    }

module _ (kit : Kit) where
  pub create_template-IsSound :
      (now : ℕ) (client_id : String) (t : Template) (f : Fake)
      → IsSound f
      → IsSound (create_template kit now client_id t f).1
  unfolding create_template next_id
  create_template-IsSound now client_id t f s =
      elim (Result-cases (get_intended_use kit f client_id t.intended_use_id)) [
        | inr (e, refused) ↦ rw (refused, create_template) s
        | inl (iu, found) ↦ elim (Bool-cases (iu.revoked_at == "")) [
          | inr revoked ↦ rw (found, create_template, revoked) s
          | inl active ↦
              let later = next_id-IsSound f s in
              rw (found, create_template, active)
                (record {
                  clients = later.clients;
                  templates =
                      Rows-insert template_id_of (suc f.seq) f.templates (id_of (suc f.seq)) _
                        (last-IsMinted f) refl later.templates;
                  keys = later.keys;
                  indexed = later.indexed;
                })
        ]
      ]

  pub delete_template-IsSound :
      (client_id id : String) (f : Fake)
      → IsSound f
      → IsSound (delete_template kit client_id id f).1
  unfolding delete_template own_template
  delete_template-IsSound client_id id f s = elim (Option-cases (lookup id f.templates)) [
    | inl missing ↦ rw (missing, delete_template) s
    | inr (t, found) ↦ elim (Bool-cases (not (t.client_id == client_id) || t.deleted)) [
      | inl hidden ↦ rw (found, delete_template, hidden) s
      | inr mine ↦
          let (minted, own) = s.templates id t found in
          rw (found, delete_template, mine)
            (record {
              clients = s.clients;
              templates = Rows-insert template_id_of f.seq f.templates id _ minted own s.templates;
              keys = s.keys;
              indexed = s.indexed;
            })
    ]
  ]

  pub create_api_key-IsSound :
      (client_id prefix secret_hash : String) (f : Fake)
      → IsSound f
      → IsSound (create_api_key kit client_id prefix secret_hash f).1
  unfolding create_api_key next_id
  create_api_key-IsSound client_id prefix secret_hash f s =
      elim (Option-cases (lookup prefix f.keys_by_prefix)) [
        | inr (id, taken) ↦ rw (taken, create_api_key) s
        | inl free ↦
            let later = next_id-IsSound f s in
            rw (free, create_api_key)
              (record {
                clients = later.clients;
                templates = later.templates;
                keys =
                    Rows-insert key_id_of (suc f.seq) f.api_keys (id_of (suc f.seq)) _
                      (last-IsMinted f) refl later.keys;
                indexed =
                    Indexed-new f.keys_by_prefix f.api_keys prefix (id_of (suc f.seq)) _ s.indexed;
              })
      ]

  pub revoke_api_key-IsSound :
      (client_id key_id : String) (f : Fake)
      → IsSound f
      → IsSound (revoke_api_key kit client_id key_id f).1
  unfolding revoke_api_key
  revoke_api_key-IsSound client_id key_id f s = elim (Option-cases (lookup key_id f.api_keys)) [
    | inl missing ↦ rw (missing, revoke_api_key) s
    | inr (k, found) ↦ elim (Bool-cases (k.client_id == client_id)) [
      | inr other ↦ rw (found, revoke_api_key, other) s
      | inl mine ↦
          let (minted, own) = s.keys key_id k found in
          rw (found, revoke_api_key, mine)
            (record {
              clients = s.clients;
              templates = s.templates;
              keys = Rows-insert key_id_of f.seq f.api_keys key_id _ minted own s.keys;
              indexed = Indexed-insert f.keys_by_prefix f.api_keys key_id _ s.indexed;
            })
    ]
  ]
