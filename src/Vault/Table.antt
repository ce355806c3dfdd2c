-- ===== src/Vault/Table.antt =====
-- internal/store/vault.go, each function as an operation on the tables.
use jadeenvoy.Prelude.{
  ℕ, String, Bool, not, List, [], ◌∷◌, ◌&&◌, none, some, str_eq, leb, first, some_of, select, take,
  sort_by, if◌then◌else◌,
}
use jadeenvoy.Errors.{prefixed, conflict}
use jadeenvoy.Action.{
  Outside, Act, pure, fail, at_tick, or_not_found, ◌>>=◌, ◌>>◌, exec, query, each, some_affected,
}
use jadeenvoy.Memory.Table.{tenant_or_default, limit_or}
use jadeenvoy.Vault.Rows.{
  VaultRow, CredentialRow, VaultDb, CreateCredentialInput, UpdateCredentialInput,
}
use jadeenvoy.Vault.Statements.{
  absent, is_vault, is_credential, serves, insert_vault, update_vault_row, delete_vault_row,
  insert_credential, update_credential_row, archive_credential_row, delete_credential_row,
}

-- fmt.Errorf("…: %w", err) on the error of a call
unfoldable pub wrapped : {A : Type 0} → String → Act VaultDb A → Act VaultDb A
wrapped s m w = let (r, w') = m w in (prefixed s r, w')

abbrev newest_vault : VaultRow → VaultRow → Bool
newest_vault a b = leb b.created_at a.created_at

abbrev pub newest : CredentialRow → CredentialRow → Bool
newest a b = leb b.created_at a.created_at

abbrev lists_vault : String → VaultRow → Bool
lists_vault tenant v = str_eq v.tenant_id tenant && absent v.archived_at

abbrev lists_credential : String → String → CredentialRow → Bool
lists_credential tenant vault c =
    str_eq c.vault_id vault && (str_eq c.tenant_id tenant && absent c.archived_at)

-- vault_id IN (…) AND mcp_server_host = ? AND tenant_id = ? AND archived_at IS NULL
abbrev pub matches : String → List String → String → CredentialRow → Bool
matches tenant vaults host c =
    some_of (λ v. str_eq c.vault_id v) vaults
    && (str_eq c.mcp_server_host host && (str_eq c.tenant_id tenant && absent c.archived_at))

abbrev pub metadata_or : String → String
metadata_or m = if str_eq m "" then "{}" else m

unfoldable pub new_vault : String → ℕ → String → String → String → VaultRow
new_vault id now tenant name metadata = record {
  id = id;
  tenant_id = tenant;
  display_name = name;
  metadata = metadata_or metadata;
  archived_at = none;
  created_at = now;
  updated_at = now;
}

unfoldable pub new_credential : String → ℕ → CreateCredentialInput → CredentialRow
new_credential id now input = record {
  id = id;
  vault_id = input.vault_id;
  tenant_id = tenant_or_default input.tenant_id;
  display_name = input.display_name;
  auth_type = input.auth_type;
  mcp_server_url = input.mcp_server_url;
  mcp_server_host = input.mcp_server_host;
  cipher = input.cipher;
  cipher_nonce = input.cipher_nonce;
  cipher_label = input.cipher_label;
  archived_at = none;
  created_at = now;
  updated_at = now;
}

unfoldable pub changed_credential : ℕ → UpdateCredentialInput → CredentialRow → CredentialRow
changed_credential now input c = record c {
  display_name = input.display_name;
  auth_type = input.auth_type;
  mcp_server_url = input.mcp_server_url;
  mcp_server_host = input.mcp_server_host;
  cipher = input.cipher;
  cipher_nonce = input.cipher_nonce;
  cipher_label = input.cipher_label;
  updated_at = now;
}

module _ (env : Outside) where
  unfoldable pub get_vault : String → String → Act VaultDb VaultRow
  get_vault tenant id = do
    r ← query env (λ db. first (is_vault tenant id) db.vaults)
    or_not_found r

  unfoldable pub create_vault : String → String → String → Act VaultDb VaultRow
  create_vault tenant name metadata = do
    let tenant_id = tenant_or_default tenant
    row ← at_tick (λ n. new_vault (env.new_id "vlt" n) (env.now_ms n) tenant_id name metadata)
    wrapped "insert vault: " (exec env (insert_vault row))
    get_vault tenant_id row.id

  unfoldable pub list_vaults : String → ℕ → Act VaultDb (List VaultRow)
  list_vaults tenant limit = do
    rows ← query env (λ db.
        take (limit_or 50 limit) (sort_by newest_vault (select (lists_vault tenant) db.vaults)))
    each (λ v. get_vault tenant v.id) rows

  unfoldable pub archive_vault : String → String → Act VaultDb (Unit {0})
  archive_vault tenant id = do
    now ← at_tick env.now_ms
    n ←
        exec env
          (update_vault_row tenant id (λ v. record v { archived_at = some now; updated_at = now }))
    some_affected n

  unfoldable pub update_vault : String → String → String → String → Act VaultDb VaultRow
  update_vault tenant id name metadata = do
    now ← at_tick env.now_ms
    n ← exec env (
        update_vault_row tenant id (λ v. record v {
          display_name = name;
          metadata = metadata_or metadata;
          updated_at = now;
        }))
    some_affected n
    get_vault tenant id

  unfoldable pub delete_vault : String → String → Act VaultDb (Unit {0})
  delete_vault tenant id = do n ← exec env (delete_vault_row tenant id); some_affected n

  unfoldable pub get_credential : String → Act VaultDb CredentialRow
  get_credential id = do
    r ← query env (λ db. first (λ c. str_eq c.id id) db.credentials)
    or_not_found r

  unfoldable pub get_credential_scoped : String → String → String → Act VaultDb CredentialRow
  get_credential_scoped tenant vault id = do
    r ← query env (λ db. first (is_credential tenant vault id) db.credentials)
    or_not_found r

  unfoldable pub create_credential : CreateCredentialInput → Act VaultDb CredentialRow
  create_credential input = do
    row ← at_tick (λ n. new_credential (env.new_id "crd" n) (env.now_ms n) input)
    existing ←
        query env (λ db. some_of (serves input.vault_id input.mcp_server_host) db.credentials)
    if existing then fail conflict else (do
      wrapped "insert credential: " (exec env (insert_credential row))
      get_credential row.id)

  unfoldable pub list_credentials_by_vault : String → String → Act VaultDb (List CredentialRow)
  list_credentials_by_vault tenant vault =
      query env (λ db. sort_by newest (select (lists_credential tenant vault) db.credentials))

  unfoldable pub update_credential : UpdateCredentialInput → Act VaultDb CredentialRow
  update_credential input = do
    let tenant = tenant_or_default input.tenant_id
    existing ← query env (λ db.
        some_of (λ c. serves input.vault_id input.mcp_server_host c && not (str_eq c.id input.id))
          db.credentials)
    if existing then fail conflict else (do
      now ← at_tick env.now_ms
      n ← exec env (
          update_credential_row tenant input.vault_id input.id input.mcp_server_host input.auth_type
            (changed_credential now input))
      some_affected n
      get_credential_scoped tenant input.vault_id input.id)

  unfoldable pub archive_credential : String → String → String → Act VaultDb (Unit {0})
  archive_credential tenant vault id = do
    now ← at_tick env.now_ms
    n ← exec env (archive_credential_row tenant vault id now)
    some_affected n

  unfoldable pub list_active_credentials_by_host :
      String → List String → String → Act VaultDb (List CredentialRow)
  list_active_credentials_by_host tenant [] host = pure []
  list_active_credentials_by_host tenant (v ∷ vs) host =
      query env (λ db. sort_by newest (select (matches tenant (v ∷ vs) host) db.credentials))

  unfoldable pub delete_credential : String → String → String → Act VaultDb (Unit {0})
  delete_credential tenant vault id = do
    n ← exec env (delete_credential_row tenant vault id)
    some_affected n
