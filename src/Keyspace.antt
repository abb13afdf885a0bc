-- ===== src/Keyspace.antt =====
-- internal/keyspace/keyspace.go: the configured prefix of the keys of the shared cache.
pub mod Normal
use eudi_api_management.Base.{ℕ, String, Bool, nat_eq, ◌==◌, if◌then◌else◌}
use eudi_api_management.Text.{append, trim_right, trim_space}

abbrev pub is_colon : ℕ → Bool
is_colon c = nat_eq c b':'

-- New
unfoldable pub new_prefix : String → String
new_prefix p =
    let trimmed = trim_right is_colon (trim_space p) in
    if trimmed == "" then "" else append trimmed ":"

-- Key
unfoldable pub key : String → String → String
key prefix k = append prefix k
