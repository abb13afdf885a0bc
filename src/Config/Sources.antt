-- ===== src/Config/Sources.antt =====
-- The calls of viper that `Bind` makes, by key: the variable that it binds, and the last default.
use eudi_api_management.Base.{
  String, ◌≡◌, refl, ◌∙◌, Option, none, some, List, [], ◌∷◌, ◌++◌, ◌==◌, if◌then◌else◌, arith,
  Bool-cases, inl, inr,
}
use eudi_api_management.Config.{
  Value, text, Setting, sets_default, binds_env, Secrets, load_secret, default_of, defaults,
  bindings, bind,
}

-- the variable that a key is bound to
abbrev pub env_name : String → List Setting → Option String
env_name key [] = none
env_name key (sets_default k v ∷ calls) = env_name key calls
env_name key (binds_env k name ∷ calls) =
    let rest = env_name key calls in if k == key then some name else rest

abbrev pub later : {A : Type 0} → Option A → Option A → Option A
later none o = o
later (some a) o = some a

-- the last default of a key
abbrev pub default_for : String → List Setting → Option Value
default_for key [] = none
default_for key (sets_default k v ∷ calls) =
    later (default_for key calls) (if k == key then some v else none)
default_for key (binds_env k name ∷ calls) = default_for key calls

abbrev pub Environment : Type 0
Environment = String → Option String

-- a secret that the secret store has, if it is not empty
abbrev pub secret_of : Option String → Option Value
secret_of none = none
secret_of (some s) = if s == "" then none else some (text s)

later_assoc : {A : Type 0} (a b c : Option A) → later (later a b) c ≡ later a (later b c)
later_assoc none b c = refl
later_assoc (some a) b c = refl

default_for-append :
    (key : String) (xs ys : List Setting)
    → default_for key (xs ++ ys) ≡ later (default_for key ys) (default_for key xs)
default_for-append key [] ys = elim (default_for key ys) as (λ o. o ≡ later o none) [
  | none ↦ refl
  | some v ↦ refl
]
default_for-append key (sets_default k v ∷ xs) ys =
    rw (default_for-append key xs ys)
      (later_assoc (default_for key ys) (default_for key xs) (if k == key then some v else none))
default_for-append key (binds_env k name ∷ xs) ys = default_for-append key xs ys

env_name-append :
    (key : String) (xs ys : List Setting)
    → env_name key xs ≡ none
    → env_name key (xs ++ ys) ≡ env_name key ys
env_name-append key [] ys h = refl
env_name-append key (sets_default k v ∷ xs) ys h = env_name-append key xs ys h
env_name-append key (binds_env k name ∷ xs) ys h = ground (arith, env_name-append key xs ys)

module _ (secrets : Secrets) where
  env_name-load_secret : (key k name : String) → env_name key (load_secret secrets k name) ≡ none
  unfolding load_secret
  env_name-load_secret key k name = loaded (secrets name)
    where
      loaded : (o : Option String) → env_name key (default_of k o) ≡ none
      loaded none = refl
      loaded (some s) = elim (Bool-cases (s == "")) [ inl e ↦ rw e refl | inr e ↦ rw e refl ]

  default_for-load_secret :
      (key k name : String)
      → default_for key (load_secret secrets k name)
        ≡ (if k == key then secret_of (secrets name) else none)
  unfolding load_secret
  default_for-load_secret key k name = loaded (secrets name)
    where
      loaded :
          (o : Option String)
          → default_for key (default_of k o) ≡ (if k == key then secret_of o else none)
      loaded none = ground arith
      loaded (some s) = ground arith

  env_name-loaded :
      (key k name : String) (ys : List Setting)
      → env_name key (load_secret secrets k name ++ ys) ≡ env_name key ys
  env_name-loaded key k name ys =
      env_name-append key (load_secret secrets k name) ys (env_name-load_secret key k name)

  default_for-loaded :
      (key k name : String) (ys : List Setting)
      → default_for key (load_secret secrets k name ++ ys)
        ≡ later (default_for key ys) (if k == key then secret_of (secrets name) else none)
  default_for-loaded key k name ys =
      rw
        (default_for-append key (load_secret secrets k name) ys, default_for-load_secret key k name)
        refl

  -- A binding is found behind the defaults and the secrets.
  pub env_name-bind : (key : String) → env_name key (bind secrets) ≡ env_name key bindings
  unfolding bind
  env_name-bind key =
      rw
        (
          env_name-loaded key "postgres_dsn" "POSTGRES_DSN",
          env_name-loaded key "internal_api_token" "INTERNAL_API_TOKEN",
          env_name-loaded key "valkey_password" "VALKEY_PASSWORD",
        )
        refl

  abbrev pub loaded_default : String → Option Value
  loaded_default key =
      later
        (later (if "valkey_password" == key then secret_of (secrets "VALKEY_PASSWORD") else none)
          (if "internal_api_token" == key then secret_of (secrets "INTERNAL_API_TOKEN") else none))
        (if "postgres_dsn" == key then secret_of (secrets "POSTGRES_DSN") else none)

  -- The default of a key is that of its secret, or the fixed one.
  pub default_for-bind :
      (key : String)
      → default_for key (bind secrets) ≡ later (loaded_default key) (default_for key defaults)
  unfolding bind
  default_for-bind key =
      default_for-append key defaults (
        load_secret secrets "postgres_dsn" "POSTGRES_DSN"
        ++ (load_secret secrets "internal_api_token" "INTERNAL_API_TOKEN"
            ++ (load_secret secrets "valkey_password" "VALKEY_PASSWORD" ++ bindings)))
      ∙ rw
          (
            default_for-loaded key "postgres_dsn" "POSTGRES_DSN",
            default_for-loaded key "internal_api_token" "INTERNAL_API_TOKEN",
            default_for-loaded key "valkey_password" "VALKEY_PASSWORD",
          )
          refl
