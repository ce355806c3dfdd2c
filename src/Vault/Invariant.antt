-- ===== src/Vault/Invariant.antt =====
-- What an invariant of the tables of internal/store/vault.go must keep for the service to keep it.
use jadeenvoy.Prelude.{
  ℕ, String, All, none, refl, not, ◌≡◌, ◌&&◌, ◌||◌, some, first, All-first, OfSome, some_of,
  Bool-cases, Option-cases, inl, inr, str_eq, str_eq_iff, if◌then◌else◌, subst, sym, arith,
}
use jadeenvoy.Errors.{conflict}
use jadeenvoy.Action.{
  State, Outside, Act, next, pure, fail, lift, at_tick, some_affected, exec, query, ◌>>=◌, ◌>>◌,
}
use jadeenvoy.Action.When.{When, When-bind, When-query, When-or_not_found}
use jadeenvoy.Action.Keeps.{
  Holds, Keeps, Yields, keep_rules, Keeps-exec, Keeps-bind, Keeps-known, Keeps-fail, Keeps-pure,
  Keeps-lift, Keeps-query, Keeps-if, Keeps-option, Keeps-at_tick, Keeps-some_affected,
}
use jadeenvoy.Memory.Table.{tenant_or_default}
use jadeenvoy.Vault.Rows.{
  VaultRow, CredentialRow, VaultDb, CreateCredentialInput, UpdateCredentialInput,
}
use jadeenvoy.Vault.Secrets.{
  Codecs, Sealed, CredentialAuthInput, OauthRefresh, OauthSecret, encrypt, encrypt_credential_auth,
  oauth_label, oauth_needs_refresh, refresh_oauth, refresh_request, read_answer,
}
use jadeenvoy.Vault.Statements.{
  archive_credential_row, delete_credential_row, delete_vault_row, insert_credential, insert_vault,
  is_credential, serves, update_credential_row, update_vault_row,
}
use jadeenvoy.Vault.Table
use jadeenvoy.Vault.Service
use jadeenvoy.Vault.Readable.Secrets.{HasAccess, encrypt-When, refresh_oauth-When}

abbrev pub input_sealed : UpdateCredentialInput → Sealed
input_sealed i = record { cipher = i.cipher; nonce = i.cipher_nonce; label = i.cipher_label }

-- P is kept by every statement; a secret that is written must fit the type of its credential, which
-- what is stored and what is encrypted do.
pub record IsInvariant (lib : Codecs) (P : VaultDb → Type 0) (Fit : String → Sealed → Type 0)
    : Type 0 where
  pub vault_in : (r : VaultRow) (db : VaultDb) → P db → Holds P (insert_vault r db)
  pub vault_up :
      (t id : String) (f : VaultRow → VaultRow) (db : VaultDb)
      → P db
      → Holds P (update_vault_row t id f db)
  pub vault_out : (t id : String) (db : VaultDb) → P db → Holds P (delete_vault_row t id db)
  pub row_in :
      (r : CredentialRow) (db : VaultDb)
      → r.archived_at ≡ none
      → Fit r.auth_type (Service.sealed_of r)
      → P db
      → Holds P (insert_credential r db)
  pub row_up :
      (t : String) (now : ℕ) (i : UpdateCredentialInput) (db : VaultDb)
      → Fit i.auth_type (input_sealed i)
      → P db
      → Holds P (
          update_credential_row t i.vault_id i.id i.mcp_server_host i.auth_type
            (Table.changed_credential now i)
            db)
  pub row_archived :
      (t v id : String) (now : ℕ) (db : VaultDb)
      → P db
      → Holds P (archive_credential_row t v id now db)
  pub row_out : (t v id : String) (db : VaultDb) → P db → Holds P (delete_credential_row t v id db)
  pub fits_stored :
      (db : VaultDb) → P db → All (λ c. Fit c.auth_type (Service.sealed_of c)) db.credentials
  pub fits_new :
      (a : CredentialAuthInput) (w : State VaultDb)
      → When (encrypt_credential_auth lib a w) (λ s w'. Fit a.type s)
  pub fits_refreshed :
      (n : String) (s : OauthSecret)
      → HasAccess s
      → Fit "mcp_oauth" (record {
        cipher = lib.seal n (lib.secret_json s) oauth_label;
        nonce = n;
        label = oauth_label;
      })

module _ (env : Outside) (lib : Codecs) {P : VaultDb → Type 0} {Fit : String → Sealed → Type 0}
    (inv : IsInvariant lib P Fit) where
  pub Keeps-wrapped :
      {A : Type 0} (s : String) (m : Act VaultDb A) → Keeps P m → Keeps P (Table.wrapped s m)
  unfolding Table.wrapped
  Keeps-wrapped s m k = record { at = λ w h. k.at w h }

  pub get_vault-Keeps : (t id : String) → Keeps P (Table.get_vault env t id)
  unfolding Table.get_vault
  get_vault-Keeps t id = search keep_rules

  get_credential-Keeps : (id : String) → Keeps P (Table.get_credential env id)
  unfolding Table.get_credential
  get_credential-Keeps id = search keep_rules

  pub get_scoped-Keeps : (t v id : String) → Keeps P (Table.get_credential_scoped env t v id)
  unfolding Table.get_credential_scoped
  get_scoped-Keeps t v id = search keep_rules

  pub get_scoped-Fits :
      (t v id : String)
      → Yields P
          (Table.get_credential_scoped env t v id)
          (λ c. Fit c.auth_type (Service.sealed_of c))
  unfolding Table.get_credential_scoped
  get_scoped-Fits t v id w h =
      When-bind (query env (λ db. first (is_credential t v id) db.credentials)) _ w _ (
        When-query env _ w _ (
          When-or_not_found _ _ _ (λ c found.
            subst (OfSome (λ c. Fit c.auth_type (Service.sealed_of c))) found (
              All-first (λ c. Fit c.auth_type (Service.sealed_of c)) (is_credential t v id)
                w.db.credentials (inv.fits_stored w.db h)))))

  Keeps-encrypt : (p l : String) → Keeps P (encrypt lib p l)
  unfolding encrypt
  Keeps-encrypt p l = record { at = λ w h. h }

  pub encrypt_auth-Keeps : (a : CredentialAuthInput) → Keeps P (encrypt_credential_auth lib a)
  unfolding encrypt_credential_auth
  encrypt_auth-Keeps a = search (keep_rules, Keeps-encrypt)

  pub create_credential-Keeps :
      (i : CreateCredentialInput)
      → Fit i.auth_type
          (record { cipher = i.cipher; nonce = i.cipher_nonce; label = i.cipher_label })
      → Keeps P (Table.create_credential env i)
  unfolding Table.create_credential Table.new_credential
  create_credential-Keeps i f = record {
    at = λ w.
        (rest (Table.new_credential (env.new_id "crd" w.tick) (env.now_ms w.tick) i) refl f).at w;
  }
    where
      rest :
          (row : CredentialRow)
          → row.archived_at ≡ none
          → Fit row.auth_type (Service.sealed_of row)
          → Keeps P (
              query env (λ db. some_of (serves i.vault_id i.mcp_server_host) db.credentials)
              >>= (λ existing.
                  if existing
                  then fail conflict
                  else (Table.wrapped "insert credential: " (exec env (insert_credential row))
                      >> Table.get_credential env row.id)))
      rest row o g = Keeps-bind (query env _) _ (Keeps-query env _) (λ existing.
          Keeps-if existing _ _ (Keeps-fail conflict) (
            Keeps-bind (Table.wrapped "insert credential: " (exec env (insert_credential row))) _
              (Keeps-wrapped _ (exec env (insert_credential row))
                (Keeps-exec env _ (λ db. inv.row_in row db o g)))
              (λ u. get_credential-Keeps row.id)))

  pub update_row-Keeps :
      (i : UpdateCredentialInput)
      → Fit i.auth_type
          (record { cipher = i.cipher; nonce = i.cipher_nonce; label = i.cipher_label })
      → Keeps P (Table.update_credential env i)
  unfolding Table.update_credential Table.changed_credential
  update_row-Keeps i f = Keeps-bind (query env _) _ (Keeps-query env _) (λ existing.
      Keeps-if existing _ _ (Keeps-fail conflict) (
        Keeps-bind (at_tick env.now_ms) _ (Keeps-at_tick env.now_ms) (λ now.
          Keeps-bind (exec env _) _
            (Keeps-exec env _ (λ db. inv.row_up (tenant_or_default i.tenant_id) now i db f))
            (λ n.
              Keeps-bind (some_affected n) _ (Keeps-some_affected n)
                (λ u. get_scoped-Keeps (tenant_or_default i.tenant_id) i.vault_id i.id)))))

  pub updated_secret-Keeps :
      (c : CredentialRow) (a : CredentialAuthInput) → Keeps P (Service.updated_secret env lib c a)
  unfolding Service.updated_secret
  updated_secret-Keeps c a =
      Keeps-if _ _ _ (encrypt_auth-Keeps _) (Keeps-pure (Service.sealed_of c))

  -- The old secret stays only under its own type.
  pub updated_secret-Fits :
      (c : CredentialRow) (a : CredentialAuthInput)
      → Fit c.auth_type (Service.sealed_of c)
      → Yields P (Service.updated_secret env lib c a) (Fit (Service.name_or a.type c.auth_type))
  unfolding Service.updated_secret
  updated_secret-Fits c a g w h =
      elim (Bool-cases
        (Service.sets_secret a || not (str_eq (Service.name_or a.type c.auth_type) c.auth_type))) [
          | inl new ↦
              rw new (inv.fits_new (record a { type = Service.name_or a.type c.auth_type }) w)
          | inr old ↦ rw old (
              subst (λ t. Fit t (Service.sealed_of c))
                (sym (
                  (str_eq_iff (Service.name_or a.type c.auth_type) c.auth_type).0
                    (ground (arith, old))))
                g)
        ]

  refresh-Keeps : (s : OauthSecret) → Keeps P (refresh_oauth lib s)
  unfolding refresh_oauth
  refresh-Keeps s = Keeps-option s.refresh _ _ (Keeps-pure s) (λ r.
      Keeps-bind (λ w. (lib.post w.tick (refresh_request r), next w)) _ (record { at = λ w h. h })
        (λ answer.
          Keeps-bind (lift (read_answer lib answer)) _ (Keeps-lift _)
            (λ out. record { at = λ w h. h })))

  persist-Keeps :
      (c : CredentialRow) (s : OauthSecret)
      → c.auth_type ≡ "mcp_oauth"
      → HasAccess s
      → Keeps P (Service.persist_oauth_secret env lib c s)
  unfolding Service.persist_oauth_secret
  persist-Keeps c s t g =
      Keeps-known (encrypt lib (lib.secret_json s) oauth_label)
        (λ k. Fit c.auth_type (record k { label = oauth_label })) _ (Keeps-encrypt _ _)
        (λ w h.
          encrypt-When lib (lib.secret_json s) oauth_label w _
            (λ n. rw t (inv.fits_refreshed n s g)))
        (λ k f.
          Keeps-bind (Table.update_credential env _) _ (update_row-Keeps _ f) (λ r. Keeps-pure tt))

  pub fresh_secret-Keeps :
      (c : CredentialRow) (s : OauthSecret)
      → c.auth_type ≡ "mcp_oauth"
      → Keeps P (Service.fresh_secret env lib c s)
  unfolding Service.fresh_secret
  fresh_secret-Keeps c s t = record {
    at = λ w h.
        elim (Bool-cases (oauth_needs_refresh lib s (lib.now_ns w.tick) && Service.can_refresh s)) [
          | inr stays ↦ rw stays h
          | inl goes ↦ elim (Option-cases s.refresh) [
            | inl gone ↦ ground (arith, rw gone at goes)
            | inr (r, found) ↦ rw goes ((renewed r found).at w h)
          ]
        ];
  }
    where
      renewed :
          (r : OauthRefresh)
          → s.refresh ≡ some r
          → Keeps P (do
            refreshed ← refresh_oauth lib s
            Service.persist_oauth_secret env lib c refreshed
            pure refreshed)
      renewed r found =
          Keeps-known (refresh_oauth lib s) HasAccess _ (refresh-Keeps s)
            (λ w h. refresh_oauth-When lib s r w found)
            (λ s' g.
              Keeps-bind (Service.persist_oauth_secret env lib c s') _ (persist-Keeps c s' t g)
                (λ u. Keeps-pure s'))
