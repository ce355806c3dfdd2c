-- ===== src/Vault/Service.antt =====
-- internal/vault/service.go: the requests on vaults and credentials, and the resolution of a token.
mod Views
unfoldable pub use Views.*
use jadeenvoy.Prelude.{
  ℕ, String, Bool, true, false, not, List, [], ◌∷◌, ◌&&◌, ◌||◌, Option, none, some, str_eq, map,
  if◌then◌else◌,
}
use jadeenvoy.Errors.{ok, message}
use jadeenvoy.Action.{Outside, Act, pure, fail, lift, ◌>>=◌, ◌>>◌}
use jadeenvoy.Vault.Rows.{VaultRow, CredentialRow, VaultDb}
use jadeenvoy.Vault.Secrets.{
  host_from_url, Codecs, CredentialAuthInput, OauthSecret, Sealed, and_then, decrypt,
  decrypt_oauth_secret, encrypt, encrypt_credential_auth, oauth_label, oauth_needs_refresh,
  refresh_oauth, unsupported_auth_type,
}
use jadeenvoy.Vault.Table

abbrev pub name_or : String → String → String
name_or s d = if str_eq s "" then d else s

-- A field of the request that makes UpdateCredential encrypt again.
unfoldable pub sets_secret : CredentialAuthInput → Bool
sets_secret a =
    not (str_eq a.token "")
    || (not (str_eq a.access_token "")
        || (elim a.refresh [ none ↦ false | some r ↦ true ] || not (str_eq a.expires_at "")))

abbrev pub can_refresh : OauthSecret → Bool
can_refresh s = elim s.refresh [ none ↦ false | some r ↦ true ]

abbrev pub sealed_of : CredentialRow → Sealed
sealed_of c = record { cipher = c.cipher; nonce = c.cipher_nonce; label = c.cipher_label }

module _ (env : Outside) (lib : Codecs) where
  unfoldable pub vault_to_api : VaultRow → VaultView
  vault_to_api r = record {
    type = "vault";
    id = r.id;
    display_name = r.display_name;
    metadata = lib.read_metadata r.metadata;
    created_at = r.created_at;
    updated_at = r.updated_at;
    archived_at = r.archived_at;
  }

  abbrev metadata_of : CreateVaultRequest → String
  metadata_of req = elim req.metadata [ [] ↦ "{}" | x ∷ xs ↦ lib.metadata_json req.metadata ]

  unfoldable pub create_vault : String → CreateVaultRequest → Act VaultDb VaultView
  create_vault tenant req =
      if str_eq req.display_name "" then fail (message "display_name is required") else (do
        row ← Table.create_vault env tenant req.display_name (metadata_of req)
        pure (vault_to_api row))

  unfoldable pub get_vault : String → String → Act VaultDb VaultView
  get_vault tenant id = do row ← Table.get_vault env tenant id; pure (vault_to_api row)

  unfoldable pub list_vaults : String → ℕ → Act VaultDb (List VaultView)
  list_vaults tenant limit = do
    rows ← Table.list_vaults env tenant limit
    pure (map vault_to_api rows)

  unfoldable pub archive_vault : String → String → Act VaultDb (Unit {0})
  archive_vault tenant id = Table.archive_vault env tenant id

  unfoldable pub update_vault : String → String → CreateVaultRequest → Act VaultDb VaultView
  update_vault tenant id req =
      if str_eq req.display_name "" then fail (message "display_name is required") else (do
        row ← Table.update_vault env tenant id req.display_name (metadata_of req)
        pure (vault_to_api row))

  unfoldable pub delete_vault : String → String → Act VaultDb (Unit {0})
  delete_vault tenant id = Table.delete_vault env tenant id

  unfoldable pub add_credential :
      String → String → CreateCredentialRequest → Act VaultDb CredentialView
  add_credential vault tenant req =
      if not (str_eq req.auth.type "static_bearer") && not (str_eq req.auth.type "mcp_oauth")
      then fail unsupported_auth_type
      else if str_eq req.auth.mcp_server_url ""
      then fail (message "auth.mcp_server_url is required")
      else (do
        host ← lift (host_from_url lib req.auth.mcp_server_url)
        Table.get_vault env tenant vault
        sealed ← encrypt_credential_auth lib req.auth
        row ← Table.create_credential env (record {
          vault_id = vault;
          tenant_id = tenant;
          display_name = req.display_name;
          auth_type = req.auth.type;
          mcp_server_url = req.auth.mcp_server_url;
          mcp_server_host = host;
          cipher = sealed.cipher;
          cipher_nonce = sealed.nonce;
          cipher_label = sealed.label;
        })
        pure (credential_to_api row))

  unfoldable pub list_credentials : String → String → Act VaultDb (List CredentialView)
  list_credentials tenant vault = do
    Table.get_vault env tenant vault
    rows ← Table.list_credentials_by_vault env tenant vault
    pure (map credential_to_api rows)

  unfoldable pub get_credential : String → String → String → Act VaultDb CredentialView
  get_credential tenant vault id = do
    Table.get_vault env tenant vault
    row ← Table.get_credential_scoped env tenant vault id
    pure (credential_to_api row)

  -- The secret that is stored: the old one, or that of the request.
  unfoldable pub updated_secret : CredentialRow → CredentialAuthInput → Act VaultDb Sealed
  updated_secret current auth =
      let auth_type = name_or auth.type current.auth_type in
      if sets_secret auth || not (str_eq auth_type current.auth_type)
      then encrypt_credential_auth lib (record auth { type = auth_type })
      else pure (sealed_of current)

  unfoldable pub update_credential :
      String → String → String → CreateCredentialRequest → Act VaultDb CredentialView
  update_credential tenant vault id req =
      if not (str_eq req.auth.type "")
        && (not (str_eq req.auth.type "static_bearer") && not (str_eq req.auth.type "mcp_oauth"))
      then fail unsupported_auth_type
      else if str_eq req.auth.mcp_server_url ""
      then fail (message "auth.mcp_server_url is required")
      else (do
        host ← lift (host_from_url lib req.auth.mcp_server_url)
        Table.get_vault env tenant vault
        current ← Table.get_credential_scoped env tenant vault id
        sealed ← updated_secret current req.auth
        row ← Table.update_credential env (record {
          id = id;
          vault_id = vault;
          tenant_id = tenant;
          display_name = name_or req.display_name current.display_name;
          auth_type = name_or req.auth.type current.auth_type;
          mcp_server_url = req.auth.mcp_server_url;
          mcp_server_host = host;
          cipher = sealed.cipher;
          cipher_nonce = sealed.nonce;
          cipher_label = sealed.label;
        })
        pure (credential_to_api row))

  unfoldable pub archive_credential : String → String → String → Act VaultDb (Unit {0})
  archive_credential tenant vault id = do
    Table.get_vault env tenant vault
    Table.archive_credential env tenant vault id

  unfoldable pub delete_credential : String → String → String → Act VaultDb (Unit {0})
  delete_credential tenant vault id = Table.delete_credential env tenant vault id

  unfoldable pub persist_oauth_secret : CredentialRow → OauthSecret → Act VaultDb (Unit {0})
  persist_oauth_secret row secret = do
    sealed ← encrypt lib (lib.secret_json secret) oauth_label
    Table.update_credential env (record {
      id = row.id;
      vault_id = row.vault_id;
      tenant_id = row.tenant_id;
      display_name = row.display_name;
      auth_type = row.auth_type;
      mcp_server_url = row.mcp_server_url;
      mcp_server_host = row.mcp_server_host;
      cipher = sealed.cipher;
      cipher_nonce = sealed.nonce;
      cipher_label = oauth_label;
    })
    pure tt

  -- The secret of an OAuth credential, refreshed and stored when it is about to expire.
  unfoldable pub fresh_secret : CredentialRow → OauthSecret → Act VaultDb OauthSecret
  fresh_secret c secret w =
      if oauth_needs_refresh lib secret (lib.now_ns w.tick) && can_refresh secret
      then (do
        refreshed ← refresh_oauth lib secret
        persist_oauth_secret c refreshed
        pure refreshed)
          w
      else pure secret w

  -- The loop of Resolve.
  unfoldable pub resolve_rows : List CredentialRow → Act VaultDb (Option ResolvedCredential)
  resolve_rows [] = pure none
  resolve_rows (c ∷ cs) =
      let rest = resolve_rows cs in
      if str_eq c.auth_type "static_bearer"
      then (do
        token ← lift (decrypt lib c.cipher c.cipher_nonce c.cipher_label)
        pure (some (record { credential_id = c.id; auth_type = c.auth_type; token = token })))
      else if str_eq c.auth_type "mcp_oauth"
      then (do
        secret ← lift (decrypt_oauth_secret lib c.cipher c.cipher_nonce c.cipher_label)
        fresh ← fresh_secret c secret
        pure (
            some (record {
              credential_id = c.id;
              auth_type = c.auth_type;
              token = fresh.access_token;
            })))
      else rest

  unfoldable pub resolve : String → List String → String → Act VaultDb (Option ResolvedCredential)
  resolve tenant vaults host = do
    creds ← Table.list_active_credentials_by_host env tenant vaults host
    resolve_rows creds

  unfoldable pub validate_oauth_credential : String → String → String → Act VaultDb (Unit {0})
  validate_oauth_credential tenant vault id = do
    row ← Table.get_credential_scoped env tenant vault id
    if not (str_eq row.auth_type "mcp_oauth")
        then fail (message "credential is not mcp_oauth")
        else lift (
            and_then (decrypt_oauth_secret lib row.cipher row.cipher_nonce row.cipher_label)
              (λ s. ok tt))
