-- ===== src/Vault/Handle.antt =====
-- Sequences of requests to internal/vault/service.go.
use jadeenvoy.Prelude.{
  ℕ, String, not, ◌&&◌, List, [], ◌∷◌, Bool-cases, inl, inr, str_eq, str_eq_iff,
}
use jadeenvoy.Errors.{message}
use jadeenvoy.Action.{Outside, State, Act, pure, lift, exec, ◌>>=◌}
use jadeenvoy.Action.Keeps.{
  Keeps, keep_rules, Keeps-each, Keeps-exec, Keeps-bind, Keeps-known, Keeps-fail, Keeps-pure,
  Keeps-lift, Keeps-if, Keeps-query,
}
use jadeenvoy.Vault.Rows.{VaultRow, CredentialRow, VaultDb}
use jadeenvoy.Vault.Secrets.{
  host_from_url, Codecs, Sealed, encrypt_credential_auth, unsupported_auth_type, decrypt,
  decrypt_oauth_secret,
}
use jadeenvoy.Vault.Statements.{insert_vault}
use jadeenvoy.Vault.Table
use jadeenvoy.Vault.Service
use jadeenvoy.Vault.Service.{CreateVaultRequest, CreateCredentialRequest}
use jadeenvoy.Vault.Invariant.{
  IsInvariant, Keeps-wrapped, get_vault-Keeps, get_scoped-Keeps, get_scoped-Fits,
  fresh_secret-Keeps, encrypt_auth-Keeps, create_credential-Keeps, update_row-Keeps,
  updated_secret-Keeps, updated_secret-Fits,
}

-- A request with its arguments.
pub data VaultRequest : Type 0 where
  ask_create_vault : String → CreateVaultRequest → VaultRequest
  ask_get_vault ask_archive_vault ask_delete_vault : String → String → VaultRequest
  ask_list_vaults : String → ℕ → VaultRequest
  ask_update_vault : String → String → CreateVaultRequest → VaultRequest
  ask_add : String → String → CreateCredentialRequest → VaultRequest
  ask_list_credentials : String → String → VaultRequest
  ask_get_credential ask_archive_credential ask_delete_credential ask_validate :
      String → String → String → VaultRequest
  ask_update_credential : String → String → String → CreateCredentialRequest → VaultRequest
  ask_resolve : String → List String → String → VaultRequest

abbrev answer : {A : Type 0} → Act VaultDb A → Act VaultDb (Unit {0})
answer m = m >>= λ _. pure tt

module _ (env : Outside) (lib : Codecs) where
  unfoldable pub handle_vault : VaultRequest → Act VaultDb (Unit {0})
  handle_vault (ask_create_vault t r) = answer (Service.create_vault env lib t r)
  handle_vault (ask_get_vault t id) = answer (Service.get_vault env lib t id)
  handle_vault (ask_archive_vault t id) = Service.archive_vault env lib t id
  handle_vault (ask_delete_vault t id) = Service.delete_vault env lib t id
  handle_vault (ask_list_vaults t n) = answer (Service.list_vaults env lib t n)
  handle_vault (ask_update_vault t id r) = answer (Service.update_vault env lib t id r)
  handle_vault (ask_add v t r) = answer (Service.add_credential env lib v t r)
  handle_vault (ask_list_credentials t v) = answer (Service.list_credentials env lib t v)
  handle_vault (ask_get_credential t v id) = answer (Service.get_credential env lib t v id)
  handle_vault (ask_archive_credential t v id) = Service.archive_credential env lib t v id
  handle_vault (ask_delete_credential t v id) = Service.delete_credential env lib t v id
  handle_vault (ask_validate t v id) = Service.validate_oauth_credential env lib t v id
  handle_vault (ask_update_credential t v id r) =
      answer (Service.update_credential env lib t v id r)
  handle_vault (ask_resolve t vs h) = answer (Service.resolve env lib t vs h)

  unfoldable pub handle_vaults : List VaultRequest → State VaultDb → State VaultDb
  handle_vaults [] w = w
  handle_vaults (r ∷ rs) w = handle_vaults rs (handle_vault r w).1

module _ (env : Outside) (lib : Codecs) {P : VaultDb → Type 0} {Fit : String → Sealed → Type 0}
    (inv : IsInvariant lib P Fit) where
  add-Keeps :
      (v t : String) (r : CreateCredentialRequest) → Keeps P (Service.add_credential env lib v t r)
  unfolding Service.add_credential
  add-Keeps v t r =
      Keeps-if (not (str_eq r.auth.type "static_bearer") && not (str_eq r.auth.type "mcp_oauth")) _
        _ (Keeps-fail unsupported_auth_type)
        (Keeps-if (str_eq r.auth.mcp_server_url "") _ _
          (Keeps-fail (message "auth.mcp_server_url is required"))
          (Keeps-bind (lift (host_from_url lib r.auth.mcp_server_url)) _ (Keeps-lift _) (λ host.
            Keeps-bind (Table.get_vault env t v) _ (get_vault-Keeps env lib inv t v) (λ row.
              Keeps-known (encrypt_credential_auth lib r.auth) (Fit r.auth.type) _
                (encrypt_auth-Keeps env lib inv r.auth) (λ w h. inv.fits_new r.auth w)
                (λ sealed f.
                  Keeps-bind (Table.create_credential env _) _
                    (create_credential-Keeps env lib inv _ f) (λ c. Keeps-pure _))))))

  update-Keeps :
      (t v id : String) (r : CreateCredentialRequest)
      → Keeps P (Service.update_credential env lib t v id r)
  unfolding Service.update_credential
  update-Keeps t v id r =
      Keeps-if
        (not (str_eq r.auth.type "")
          && (not (str_eq r.auth.type "static_bearer") && not (str_eq r.auth.type "mcp_oauth")))
        _ _ (Keeps-fail unsupported_auth_type)
        (Keeps-if (str_eq r.auth.mcp_server_url "") _ _
          (Keeps-fail (message "auth.mcp_server_url is required"))
          (Keeps-bind (lift (host_from_url lib r.auth.mcp_server_url)) _ (Keeps-lift _) (λ host.
            Keeps-bind (Table.get_vault env t v) _ (get_vault-Keeps env lib inv t v) (λ row.
              Keeps-known (Table.get_credential_scoped env t v id)
                (λ c. Fit c.auth_type (Service.sealed_of c)) _ (get_scoped-Keeps env lib inv t v id)
                (get_scoped-Fits env lib inv t v id)
                (λ current g.
                  Keeps-known (Service.updated_secret env lib current r.auth) _ _
                    (updated_secret-Keeps env lib inv current r.auth)
                    (updated_secret-Fits env lib inv current r.auth g)
                    (λ sealed f.
                      Keeps-bind (Table.update_credential env _) _
                        (update_row-Keeps env lib inv _ f) (λ c. Keeps-pure _)))))))

  resolve_rows-Keeps : (cs : List CredentialRow) → Keeps P (Service.resolve_rows env lib cs)
  unfolding Service.resolve_rows
  resolve_rows-Keeps [] = Keeps-pure _
  resolve_rows-Keeps (c ∷ cs) =
      Keeps-if (str_eq c.auth_type "static_bearer") _ _
        (Keeps-bind (lift (decrypt lib c.cipher c.cipher_nonce c.cipher_label)) _ (Keeps-lift _)
          (λ t. Keeps-pure _))
        (elim (Bool-cases (str_eq c.auth_type "mcp_oauth")) [
          | inr other ↦ rw other (resolve_rows-Keeps cs)
          | inl oauth ↦ rw oauth (
              Keeps-bind (lift (decrypt_oauth_secret lib c.cipher c.cipher_nonce c.cipher_label)) _
                (Keeps-lift _)
                (λ secret.
                  Keeps-bind (Service.fresh_secret env lib c secret) _
                    (fresh_secret-Keeps env lib inv c secret
                      ((str_eq_iff c.auth_type "mcp_oauth").0 oauth))
                    (λ fresh. Keeps-pure _)))
        ])

  vault-Keeps : (t id : String) → Keeps P (Table.get_vault env t id)
  vault-Keeps t id = get_vault-Keeps env lib inv t id

  scoped-Keeps : (t v id : String) → Keeps P (Table.get_credential_scoped env t v id)
  scoped-Keeps t v id = get_scoped-Keeps env lib inv t v id

  insert_vault-Keeps :
      (s : String) (r : VaultRow) → Keeps P (Table.wrapped s (exec env (insert_vault r)))
  insert_vault-Keeps s r = Keeps-wrapped env lib inv s _ (Keeps-exec env _ (inv.vault_in r))

  list_active-Keeps :
      (t : String) (vs : List String) (h : String)
      → Keeps P (Table.list_active_credentials_by_host env t vs h)
  unfolding Table.list_active_credentials_by_host
  list_active-Keeps t [] h = Keeps-pure []
  list_active-Keeps t (v ∷ vs) h = Keeps-query env _

  handle_vault-Keeps : (r : VaultRequest) → Keeps P (handle_vault env lib r)
  unfolding handle_vault Service.create_vault Service.get_vault Service.archive_vault
      Service.delete_vault Service.list_vaults Service.update_vault Service.list_credentials
      Service.get_credential Service.archive_credential Service.delete_credential
      Service.validate_oauth_credential Service.resolve Table.create_vault Table.archive_vault
      Table.delete_vault Table.list_vaults Table.update_vault Table.list_credentials_by_vault
      Table.archive_credential Table.delete_credential
  handle_vault-Keeps (ask_create_vault t r) =
      search (keep_rules, insert_vault-Keeps, vault-Keeps) depth 9
  handle_vault-Keeps (ask_get_vault t id) = search (keep_rules, vault-Keeps)
  handle_vault-Keeps (ask_archive_vault t id) = search (keep_rules, Keeps-exec, inv.vault_up)
  handle_vault-Keeps (ask_delete_vault t id) = search (keep_rules, Keeps-exec, inv.vault_out)
  handle_vault-Keeps (ask_list_vaults t n) = search (keep_rules, Keeps-each, vault-Keeps)
  handle_vault-Keeps (ask_update_vault t id r) =
      search (keep_rules, Keeps-exec, inv.vault_up, vault-Keeps) depth 9
  handle_vault-Keeps (ask_add v t r) = search (keep_rules, add-Keeps)
  handle_vault-Keeps (ask_list_credentials t v) = search (keep_rules, vault-Keeps)
  handle_vault-Keeps (ask_get_credential t v id) = search (keep_rules, vault-Keeps, scoped-Keeps)
  handle_vault-Keeps (ask_archive_credential t v id) =
      search (keep_rules, Keeps-exec, inv.row_archived, vault-Keeps) depth 9
  handle_vault-Keeps (ask_delete_credential t v id) = search (keep_rules, Keeps-exec, inv.row_out)
  handle_vault-Keeps (ask_validate t v id) = search (keep_rules, scoped-Keeps)
  handle_vault-Keeps (ask_update_credential t v id r) = search (keep_rules, update-Keeps)
  handle_vault-Keeps (ask_resolve t vs h) =
      search (keep_rules, list_active-Keeps, resolve_rows-Keeps)

  pub handle_vaults-Keeps :
      (rs : List VaultRequest) (w : State VaultDb) → P w.db → P (handle_vaults env lib rs w).db
  unfolding handle_vaults
  handle_vaults-Keeps [] w h = h
  handle_vaults-Keeps (r ∷ rs) w h = handle_vaults-Keeps rs _ ((handle_vault-Keeps r).at w h)
