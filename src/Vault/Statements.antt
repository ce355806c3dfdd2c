-- ===== src/Vault/Statements.antt =====
-- The SQL statements of internal/store/vault.go with the constraints of the schema in
-- internal/store/store.go: primary keys, the reference to vault with ON DELETE CASCADE, the CHECK of
-- auth_type, and the partial index vault_credential_unique_host. The CHECK json_valid(metadata) is
-- left out: metadata comes from json.Marshal.
use jadeenvoy.Prelude.{
  ℕ, String, Bool, true, false, [], ◌∷◌, ◌++◌, ◌&&◌, ◌||◌, not, Option, none, some, str_eq, some_of,
  select, map, if◌then◌else◌,
}
use jadeenvoy.Errors.{Result, ok, err, constraint}
use jadeenvoy.Vault.Rows.{VaultRow, CredentialRow, VaultDb}

abbrev pub absent : Option ℕ → Bool
absent none = true
absent (some t) = false

-- WHERE id = ? AND tenant_id = ?
abbrev pub is_vault : String → String → VaultRow → Bool
is_vault tenant id v = str_eq v.id id && str_eq v.tenant_id tenant

-- … AND archived_at IS NULL
abbrev pub is_open_vault : String → String → VaultRow → Bool
is_open_vault tenant id v = is_vault tenant id v && absent v.archived_at

-- WHERE id = ? AND vault_id = ? AND tenant_id = ?
abbrev pub is_credential : String → String → String → CredentialRow → Bool
is_credential tenant vault id c =
    str_eq c.id id && (str_eq c.vault_id vault && str_eq c.tenant_id tenant)

abbrev pub is_open_credential : String → String → String → CredentialRow → Bool
is_open_credential tenant vault id c = is_credential tenant vault id c && absent c.archived_at

-- WHERE vault_id = ? AND mcp_server_host = ? AND archived_at IS NULL
abbrev pub serves : String → String → CredentialRow → Bool
serves vault host c =
    str_eq c.vault_id vault && (str_eq c.mcp_server_host host && absent c.archived_at)

abbrev pub update_when : {A : Type 0} → (A → Bool) → (A → A) → A → A
update_when p f a = if p a then f a else a

abbrev pub is_auth_type : String → Bool
is_auth_type t = str_eq t "static_bearer" || str_eq t "mcp_oauth"

-- INSERT INTO vault
unfoldable pub insert_vault : VaultRow → VaultDb → Result (Unit {0} × VaultDb)
insert_vault r db =
    if some_of (λ v. str_eq v.id r.id) db.vaults
    then err constraint
    else ok (tt, record db { vaults = db.vaults ++ r ∷ [] })

-- UPDATE vault …: the answer is whether a row was hit.
unfoldable pub update_vault_row :
    String → String → (VaultRow → VaultRow) → VaultDb → Result (Bool × VaultDb)
update_vault_row tenant id f db = ok (
  some_of (is_open_vault tenant id) db.vaults,
  record db { vaults = map (update_when (is_open_vault tenant id) f) db.vaults },
)

-- DELETE FROM vault, with its credentials
unfoldable pub delete_vault_row : String → String → VaultDb → Result (Bool × VaultDb)
delete_vault_row tenant id db =
    let hit = some_of (is_vault tenant id) db.vaults in
    ok (
      hit,
      record {
        vaults = select (λ v. not (is_vault tenant id v)) db.vaults;
        credentials = select (λ c. not (hit && str_eq c.vault_id id)) db.credentials;
      },
    )

-- INSERT INTO vault_credential
unfoldable pub insert_credential : CredentialRow → VaultDb → Result (Unit {0} × VaultDb)
insert_credential r db =
    if some_of (λ c. str_eq c.id r.id || serves r.vault_id r.mcp_server_host c) db.credentials
      || (not (some_of (λ v. str_eq v.id r.vault_id) db.vaults) || not (is_auth_type r.auth_type))
    then err constraint
    else ok (tt, record db { credentials = db.credentials ++ r ∷ [] })

-- UPDATE vault_credential SET display_name = ?, …: only the row with the id is hit, which keeps its
-- vault; another open credential of the vault for the new host fails.
unfoldable pub update_credential_row :
    String
    → String
    → String
    → String
    → String
    → (CredentialRow → CredentialRow)
    → VaultDb
    → Result (Bool × VaultDb)
update_credential_row tenant vault id host auth_type f db =
    let hit = some_of (is_open_credential tenant vault id) db.credentials in
    if hit
      && (some_of (λ c. serves vault host c && not (str_eq c.id id)) db.credentials
          || not (is_auth_type auth_type))
    then err constraint
    else ok (
      hit,
      record db {
        credentials = map (update_when (is_open_credential tenant vault id) f) db.credentials;
      },
    )

abbrev pub archived : ℕ → CredentialRow → CredentialRow
archived now c = record c { archived_at = some now; updated_at = now }

-- UPDATE vault_credential SET archived_at = ?, …
unfoldable pub archive_credential_row :
    String → String → String → ℕ → VaultDb → Result (Bool × VaultDb)
archive_credential_row tenant vault id now db = ok (
  some_of (is_open_credential tenant vault id) db.credentials,
  record db {
    credentials =
        map (update_when (is_open_credential tenant vault id) (archived now)) db.credentials;
  },
)

-- DELETE FROM vault_credential
unfoldable pub delete_credential_row : String → String → String → VaultDb → Result (Bool × VaultDb)
delete_credential_row tenant vault id db = ok (
  some_of (is_credential tenant vault id) db.credentials,
  record db { credentials = select (λ c. not (is_credential tenant vault id c)) db.credentials },
)
