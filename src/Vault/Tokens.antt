-- ===== src/Vault/Tokens.antt =====
-- AddCredential followed by Resolve, both of internal/vault/service.go, for a static_bearer.
use jadeenvoy.Prelude.{
  ℕ, String, Bool, true, false, not, ◌≡◌, refl, List, [], ◌∷◌, ◌++◌, some, ◌&&◌, ◌||◌, str_eq,
  str_eq_refl, some_of, some_of-weaker, select, first, first-key, Bool-cases, inl, inr, arith, sym,
  ap, subst, if◌then◌else◌,
}
use jadeenvoy.Errors.{prefixed, Error, Result, message, ok, err, conflict}
use jadeenvoy.Action.{Outside, Act, State, fail, next, lift, exec, query, ◌>>◌}
use jadeenvoy.Action.When.{
  When, When-any, When-bind, When-exec, When-query, When-then, When-or_not_found, wrote,
}
use jadeenvoy.Vault.Rows.{CredentialRow, VaultDb, CreateCredentialInput}
use jadeenvoy.Vault.Secrets.{
  host_from_url, Codecs, CredentialAuthInput, Sealed, unsupported_auth_type,
  encrypt_credential_auth, decrypt, token_label,
}
use jadeenvoy.Vault.Statements.{insert_credential, is_auth_type, serves}
use jadeenvoy.Vault.Table
use jadeenvoy.Vault.Service
use jadeenvoy.Vault.Service.{ResolvedCredential, CreateCredentialRequest}
use jadeenvoy.Vault.Readable.{IsFaithful}
use jadeenvoy.Vault.Readable.Secrets.{encrypt-When}

-- The only open credential of a vault for a host is the last row.
abbrev pub Newcomer : String → String → CredentialRow → VaultDb → Type 0
Newcomer vault host row db =
    (old : List CredentialRow) × ((db.credentials ≡ old ++ row ∷ [])
      × (some_of (serves vault host) old ≡ false))

select-append :
    (p : CredentialRow → Bool) (xs : List CredentialRow) (x : CredentialRow)
    → some_of p xs ≡ false
    → p x ≡ true
    → select p (xs ++ x ∷ []) ≡ x ∷ []
select-append p [] x n h = ground (arith, h)
select-append p (y ∷ xs) x n h = ground (arith, select-append p xs x, n, h)

insert_credential-Newcomer :
    (r : CredentialRow) (db s : VaultDb) (u : Unit {0})
    → insert_credential r db ≡ ok (u, s)
    → Newcomer r.vault_id r.mcp_server_host r s
unfolding insert_credential
insert_credential-Newcomer r db s u h =
    elim (Bool-cases (
      some_of (λ c. str_eq c.id r.id || serves r.vault_id r.mcp_server_host c) db.credentials
      || (not (some_of (λ v. str_eq v.id r.vault_id) db.vaults)
          || not (is_auth_type r.auth_type)))) [
            | inl bad ↦ cc (rw bad at h)
            | inr good ↦ (
              db.credentials,
              (
                ap (λ d. d.credentials)
                    (wrote {s = record db { credentials = db.credentials ++ r ∷ [] }}
                      (rw good at h)),
                some_of-weaker (λ c. str_eq c.id r.id || serves r.vault_id r.mcp_server_host c)
                    (serves r.vault_id r.mcp_server_host) (λ c n. ground (arith, n)) db.credentials
                    (ground (arith, good)),
              ),
            )
          ]

When-wrapped :
    {A : Type 0} (s : String) (m : Act VaultDb A) (w : State VaultDb)
    (Q : A → State VaultDb → Type 0)
    → When (m w) Q
    → When (Table.wrapped s m w) Q
unfolding Table.wrapped
When-wrapped {A = A} s m w Q h = after (m w) h
  where
    after : (r : Result A × State VaultDb) → When r Q → When (prefixed s r.0, r.1) Q
    after (ok a, w) h = h
    after (err e, w) h = tt

When-known :
    {A : Type 0} (r : Result A) (a : A) (w : State VaultDb) (Q : A → State VaultDb → Type 0)
    → r ≡ ok a
    → Q a w
    → When (r, w) Q
When-known r a w Q e h = rw e h

When-guard :
    {A : Type 0} (b : Bool) (e : Error) (m : Act VaultDb A) (w : State VaultDb)
    (Q : A → State VaultDb → Type 0)
    → When (m w) Q
    → When ((if b then fail e else m) w) Q
When-guard true e m w Q h = tt
When-guard false e m w Q h = h

module _ (env : Outside) where
  get_credential-Newcomer :
      (i : CreateCredentialInput) (id : String) (now : ℕ) (w : State VaultDb)
      → Newcomer i.vault_id i.mcp_server_host (Table.new_credential id now i) w.db
      → When (Table.get_credential env id w) (λ c w'.
        (now : ℕ) × Newcomer i.vault_id i.mcp_server_host (Table.new_credential c.id now i) w'.db)
  unfolding Table.get_credential
  get_credential-Newcomer i id now w n =
      When-bind (query env (λ db. first (λ c. str_eq c.id id) db.credentials)) _ w _ (
        When-query env _ w _ (
          When-or_not_found (first (λ c. str_eq c.id id) w.db.credentials) (next w)
            (λ c w'.
              (now : ℕ) × Newcomer i.vault_id i.mcp_server_host (Table.new_credential c.id now i)
                w'.db)
            (λ c found. (
              now,
              subst (λ k. Newcomer i.vault_id i.mcp_server_host (Table.new_credential k now i) w.db)
                  (sym (first-key (λ c. c.id) id w.db.credentials c found)) n,
            ))))

  create_credential-Newcomer :
      (i : CreateCredentialInput) (w : State VaultDb)
      → When (Table.create_credential env i w) (λ c w'.
        (now : ℕ) × Newcomer i.vault_id i.mcp_server_host (Table.new_credential c.id now i) w'.db)
  unfolding Table.create_credential Table.new_credential
  create_credential-Newcomer i w =
      When-bind (query env (λ db. some_of (serves i.vault_id i.mcp_server_host) db.credentials)) _ w
        _
        (When-query env _ w _
          (inserted (some_of (serves i.vault_id i.mcp_server_host) w.db.credentials)))
    where
      row : CredentialRow
      row = Table.new_credential (env.new_id "crd" w.tick) (env.now_ms w.tick) i

      inserted :
          (existing : Bool)
          → When
              ((if existing
                  then fail conflict
                  else (Table.wrapped "insert credential: " (exec env (insert_credential row))
                      >> Table.get_credential env row.id))
                (next w))
              (λ c w'.
                (now : ℕ) × Newcomer i.vault_id i.mcp_server_host
                  (Table.new_credential c.id now i)
                  w'.db)
      inserted true = tt
      inserted false =
          When-bind (Table.wrapped "insert credential: " (exec env (insert_credential row))) _
            (next w) _
            (When-wrapped _ (exec env (insert_credential row)) (next w) _ (
              When-exec env (insert_credential row) (next w) _ (λ u s e.
                get_credential-Newcomer i row.id row.created_at (record (next (next w)) { db = s })
                  (insert_credential-Newcomer row w.db s u e))))

module _ (lib : Codecs) (env : Outside) (works : (n : ℕ) → env.db_fault n ≡ false) where
  resolve-last :
      (tenant vault host token : String) (row : CredentialRow) (w : State VaultDb)
      → select (Table.matches tenant (vault ∷ []) host) w.db.credentials ≡ row ∷ []
      → row.auth_type ≡ "static_bearer"
      → decrypt lib row.cipher row.cipher_nonce row.cipher_label ≡ ok token
      → (Service.resolve env lib tenant (vault ∷ []) host w).0
        ≡ ok (some (record { credential_id = row.id; auth_type = "static_bearer"; token = token }))
  unfolding Service.resolve Table.list_active_credentials_by_host query Service.resolve_rows
  resolve-last tenant vault host token row w only static opened =
      rw (works w.tick, only, static, opened) refl

  select-matches :
      (tenant vault host : String) (row : CredentialRow) (db : VaultDb)
      → Newcomer vault host row db
      → Table.matches tenant (vault ∷ []) host row ≡ true
      → select (Table.matches tenant (vault ∷ []) host) db.credentials ≡ row ∷ []
  select-matches tenant vault host row db (old, (e, free)) m = rw e (
      select-append (Table.matches tenant (vault ∷ []) host) old row
        (some_of-weaker (serves vault host) _ (λ c n. ground (arith, n)) old free) m)

  abbrev Seals : String → Sealed → Type 0
  Seals token s =
      (n : String) × (s
        ≡ record { cipher = lib.seal n token token_label; nonce = n; label = token_label })

  opened-Seals :
      (faithful : IsFaithful lib) (token : String) (s : Sealed)
      → Seals token s
      → decrypt lib s.cipher s.nonce s.label ≡ ok token
  unfolding decrypt
  opened-Seals faithful token s (n, e) =
      subst (λ k. prefixed "decrypt: " (lib.unseal k.nonce k.cipher k.label) ≡ ok token) (sym e)
        (rw (faithful.opens n token token_label) refl)

  encrypt_auth-Seals :
      (a : CredentialAuthInput) (w : State VaultDb)
      → a.type ≡ "static_bearer"
      → When (encrypt_credential_auth lib a w) (λ s w'. Seals a.token s)
  unfolding encrypt_credential_auth
  encrypt_auth-Seals a w static = elim (Bool-cases (str_eq a.token "")) [
    | inl empty ↦ rw (static, empty) tt
    | inr given ↦
        rw (static, given) (encrypt-When lib a.token token_label w (Seals a.token) (λ n. (n, refl)))
  ]

  -- Resolve answers with a credential and a token.
  abbrev pub Resolves :
      String → String → String → String → Service.CredentialView → State VaultDb → Type 0
  Resolves tenant vault host token v w =
      (Service.resolve env lib tenant (vault ∷ []) host w).0
      ≡ ok (some (record { credential_id = v.id; auth_type = "static_bearer"; token = token }))

  -- Where sealed texts open again and the database does not fail: when AddCredential with a
  -- static_bearer returns, Resolve for its tenant, vault and host returns the new credential with the
  -- token that was given.
  pub add_credential-resolve :
      (faithful : IsFaithful lib) (vault tenant host : String) (req : CreateCredentialRequest)
      (w : State VaultDb)
      → str_eq tenant "" ≡ false
      → req.auth.type ≡ "static_bearer"
      → host_from_url lib req.auth.mcp_server_url ≡ ok host
      → When
          (Service.add_credential env lib vault tenant req w)
          (Resolves tenant vault host req.auth.token)
  unfolding Service.add_credential Service.credential_to_api Table.new_credential
  add_credential-resolve faithful vault tenant host req w named static at =
      When-guard
        (not (str_eq req.auth.type "static_bearer") && not (str_eq req.auth.type "mcp_oauth"))
        unsupported_auth_type _ w (Resolves tenant vault host req.auth.token)
        (When-guard (str_eq req.auth.mcp_server_url "") (message "auth.mcp_server_url is required")
          _ w (Resolves tenant vault host req.auth.token)
          (When-bind (lift (host_from_url lib req.auth.mcp_server_url)) _ w _ (
            When-known (host_from_url lib req.auth.mcp_server_url) host w _ at (
              When-bind (Table.get_vault env tenant vault) _ w _ (
                When-any (Table.get_vault env tenant vault w) _ (λ row w1.
                  When-bind (encrypt_credential_auth lib req.auth) _ w1 _ (
                    When-then (encrypt_credential_auth lib req.auth w1)
                      (encrypt_auth-Seals req.auth w1 static)
                      (λ sealed w2 (n, e).
                        When-bind (Table.create_credential env (input sealed)) _ w2 _ (
                          When-then (Table.create_credential env (input sealed) w2)
                            (create_credential-Newcomer env (input sealed) w2)
                            (λ c w3 (now, new).
                              let row : CredentialRow =
                                Table.new_credential c.id now (input sealed) in
                              resolve-last tenant vault host req.auth.token row w3
                                (select-matches tenant vault host row w3.db new (
                                  rw
                                    (named, str_eq_refl vault, str_eq_refl host, str_eq_refl tenant)
                                    refl))
                                static
                                (opened-Seals faithful req.auth.token sealed (n, e))))))))))))
    where
      input : Sealed → CreateCredentialInput
      input sealed = record {
        vault_id = vault;
        tenant_id = tenant;
        display_name = req.display_name;
        auth_type = req.auth.type;
        mcp_server_url = req.auth.mcp_server_url;
        mcp_server_host = host;
        cipher = sealed.cipher;
        cipher_nonce = sealed.nonce;
        cipher_label = sealed.label;
      }
